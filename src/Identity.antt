-- ===== src/Identity.antt =====
-- The queries of services/server/src/identity/store.ts that the OAuth service asks, over the
-- tables that they read.
use chief_everything_officer.Base.{
  ℕ, String, Bool, false, Option, none, some, List, [], ◌∷◌, ◌&&◌, ◌==◌, is_none, is_some,
  if◌then◌else◌,
}
use chief_everything_officer.Base.Sql.{find_row}

pub record User : Type 0 where
  pub id : String
  pub disabled_at : Option ℕ

pub record Membership : Type 0 where
  pub workspace_id : String
  pub user_id : String
  pub role : String
  pub created_at : ℕ

pub record RepositoryBinding : Type 0 where
  pub workspace_id : String
  pub access_scope_verified_at_ms : Option ℕ

pub record WorkspaceBootstrap : Type 0 where
  pub workspace_id : String
  pub state : String

pub record IdentityDb : Type 0 where
  pub users : List User
  pub memberships : List Membership
  pub bindings : List RepositoryBinding
  pub bootstraps : List WorkspaceBootstrap
  pub workspaces : List String

-- `WHERE id = ? AND disabled_at IS NULL`.
unfoldable pub is_user_active : IdentityDb → String → Bool
is_user_active db user_id =
    is_some (find_row (λ (u : User). u.id == user_id && is_none u.disabled_at) db.users)

unfoldable pub has_workspace_access : IdentityDb → String → String → Bool
has_workspace_access db workspace_id user_id = is_some (
    find_row
      (λ (m : Membership).
        m.workspace_id == workspace_id && (m.user_id == user_id && m.role == "owner"))
      db.memberships)

-- The memberships of a user. The callers count them and read the one that is alone, so the
-- `ORDER BY` is left out.
unfoldable pub list_workspace_memberships_for_user : List Membership → String → List Membership
list_workspace_memberships_for_user [] user_id = []
list_workspace_memberships_for_user (m ∷ ms) user_id =
    let rest = list_workspace_memberships_for_user ms user_id in
    if m.user_id == user_id then m ∷ rest else rest

abbrev pub is_ready_state : Option WorkspaceBootstrap → Bool
is_ready_state none = false
is_ready_state (some b) = b.state == "READY"

-- A GitHub-managed workspace needs a verified binding and a READY bootstrap; one without a
-- binding needs a READY bootstrap if it has one, and else only to be there.
unfoldable pub is_workspace_ready_for_host : IdentityDb → String → Bool
is_workspace_ready_for_host db workspace_id =
    let binding =
      find_row (λ (b : RepositoryBinding). b.workspace_id == workspace_id) db.bindings in
    let bootstrap =
      find_row (λ (b : WorkspaceBootstrap). b.workspace_id == workspace_id) db.bootstraps in
    elim binding [
      | some b ↦ if is_none b.access_scope_verified_at_ms then false else is_ready_state bootstrap
      | none ↦
          if is_some bootstrap
          then is_ready_state bootstrap
          else is_some (find_row (λ w. w == workspace_id) db.workspaces)
    ]
