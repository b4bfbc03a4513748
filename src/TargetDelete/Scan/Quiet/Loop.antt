-- ===== src/TargetDelete/Scan/Quiet/Loop.antt =====
-- The whole scan with nothing blocked.
use chief_everything_officer.Base.{
  ℕ, zero, suc, String, true, false, none, some, ◌≡◌, refl, sym, ◌∙◌, ap, subst, ◌⊎◌, inl, inr,
  arith, ◌+◌, ◌<◌, ltb, nat_eq, List, [], ◌∷◌, ◌++◌, length, All, All-imp, Bool-cases, Option-cases,
}
use chief_everything_officer.Jobs.Records.{StreamEntry}
use chief_everything_officer.Jobs.Scripts.{fence_ttl_ms}
use chief_everything_officer.Jobs.Machine.Jobs.{touch-jobs}
use chief_everything_officer.Jobs.Machine.Stream.{Holds, run-Holds, touch-stream}
use chief_everything_officer.Jobs.Fenced.{touch-IsUp}
use chief_everything_officer.TargetDelete.World.{Gap, World, wait, drop, take}
use chief_everything_officer.TargetDelete.World.Batches.{last-All, next-All, length-take-le}
use chief_everything_officer.TargetDelete.Scan.{
  Tally, counted, blocked, is_of_target, scan_entry, scan_batch, count_job, batch_size, batch_of,
  touch, finished, failed, unfinished, scan_loop,
}
use chief_everything_officer.TargetDelete.Scan.Quiet.{IsDead}
use chief_everything_officer.TargetDelete.Scan.Quiet.Sound.{
  job-IsDead, counted-world, IsCalm, StaysDead, wait-IsCalm, Step-cases, IsQuiet, StaysDead-entries,
  batch-IsQuiet, batch-blocked,
}

wait_gap-Holds :
    (w : World) (gaps : List Gap) (es : List StreamEntry)
    → w.gaps ≡ gaps
    → Holds es w.store
    → Holds es (wait w).store
unfolding wait
wait_gap-Holds w [] es e h = rw e h
wait_gap-Holds w (g ∷ gs) es e h = rw e (run-Holds w.store g.calls es h)

wait-Holds : (w : World) (es : List StreamEntry) → Holds es w.store → Holds es (wait w).store
wait-Holds w es h = wait_gap-Holds w w.gaps es refl h

touch-Holds :
    (target token : String) (w : World) (es : List StreamEntry)
    → Holds es w.store
    → Holds es (touch target token w).store
unfolding touch
touch-Holds target token w es h =
    let v = wait w in rw (touch-stream v.store target token v.now_ms) (wait-Holds w es h)

touch-IsCalm :
    (target token : String) (start later now : ℕ) (w : World)
    → later < start + fence_ttl_ms
    → IsCalm target start later w
    → IsCalm target start later (touch target token w)
      × StaysDead now target w (touch target token w)
unfolding touch
touch-IsCalm target token start later now w b calm =
    let v = wait w in
    let ((up, m, h), keep) = wait-IsCalm target start later now w b calm in
    (
      (touch-IsUp v.store target token target v.now_ms start later (ground arith) b up, m, h),
      λ k g. rw (touch-jobs v.store target token v.now_ms) (keep k g),
    )

-- Reading the entries of a batch leaves the stream's entries in their places.
entry-Holds :
    (now : ℕ) (target : String) (e : StreamEntry) (t t' : Tally) (w v : World)
    (es : List StreamEntry)
    → scan_entry now target e t w ≡ counted t' v
    → blocked t' ≡ 0
    → Holds es w.store
    → Holds es v.store
unfolding scan_entry
entry-Holds now target e t t' w v es h z k = elim (Bool-cases (is_of_target target e)) [
  | inl r ↦
      let read_it : count_job now ((wait w).store.jobs e.job_id) t (wait w) ≡ counted t' v =
        rw r at h in
      let (_, _, same) =
        job-IsDead now target ((wait w).store.jobs e.job_id) t t' (wait w) v read_it z in
      rw⁻¹ same (wait-Holds w es k)
  | inr r ↦ let passed : counted t w ≡ counted t' v = rw r at h in rw⁻¹ (counted-world passed) k
]

batch-Holds :
    (now : ℕ) (target : String) (bs : List StreamEntry) (t t' : Tally) (w v : World)
    (es : List StreamEntry)
    → scan_batch now target bs t w ≡ counted t' v
    → blocked t' ≡ 0
    → Holds es w.store
    → Holds es v.store
unfolding scan_batch
batch-Holds now target [] t t' w v es h z k = rw⁻¹ (counted-world h) k
batch-Holds now target (e ∷ bs) t t' w v es h z k =
    elim (Step-cases (scan_entry now target e t w)) [
      | inl (t1, u, e') ↦
          let rest : scan_batch now target bs t1 u ≡ counted t' v = ground arith in
          batch-Holds now target bs t1 t' u v es rest z (
            entry-Holds now target e t t1 w u es e' (batch-blocked now target bs t1 t' u v rest z)
              k)
      | inr (u, e') ↦ absurd (ground arith)
    ]

-- An entry of another target, or of a job that cannot run.
abbrev pub EntryFits : ℕ → String → World → StreamEntry → Type 0
EntryFits now target v e =
    (is_of_target target e ≡ false) ⊎ IsDead now target (v.store.jobs e.job_id)

pub finished-tally : {t t' : Tally} {w v : World} → finished t w ≡ finished t' v → t ≡ t'
finished-tally {t} h =
    ap (λ s. elim s as (λ _. Tally) [ finished x _ ↦ x | failed _ ↦ t | unfinished ↦ t ]) h

pub finished-world : {t t' : Tally} {w v : World} → finished t w ≡ finished t' v → w ≡ v
finished-world {t} {t'} {w} h =
    ap (λ s. elim s as (λ _. World) [ finished _ x ↦ x | failed x ↦ x | unfinished ↦ w ]) h

-- What one round of a loop that finishes does: it finds no entry, it scans a short batch, or it scans
-- a full one and goes on.
data Round (n now : ℕ) (target token : String) (cursor : ℕ) (t t' : Tally) (w v : World)
    (bs : List StreamEntry) : Type 0 where
  nothing : (length bs ≡ 0) → t ≡ t' → wait w ≡ v → Round n now target token cursor t t' w v bs
  short :
      (u : World)
      → length bs < batch_size
      → scan_batch now target bs t (wait w) ≡ counted t' u
      → touch target token u ≡ v
      → Round n now target token cursor t t' w v bs
  full :
      (t1 : Tally) (u : World)
      → (length bs < batch_size → ⊥)
      → scan_batch now target bs t (wait w) ≡ counted t1 u
      → scan_loop n now target token (cursor + length bs) t1 (touch target token u) ≡ finished t' v
      → Round n now target token cursor t t' w v bs

ltb-lt : (a b : ℕ) → ltb a b ≡ true → a < b
ltb-lt a b h = ground arith

ltb-ne-lt : (a b : ℕ) → ltb a b ≡ false → a < b → ⊥
ltb-ne-lt a b h l = ground arith

nat_eq-zero : (a : ℕ) → nat_eq a 0 ≡ true → a ≡ 0
nat_eq-zero a h = ground arith

round :
    (n now : ℕ) (target token : String) (cursor : ℕ) (t t' : Tally) (w v : World)
    (bs : List StreamEntry)
    → batch_of cursor (wait w).store.stream ≡ some bs
    → scan_loop (suc n) now target token cursor t w ≡ finished t' v
    → Round n now target token cursor t t' w v bs
unfolding scan_loop
round n now target token cursor t t' w v bs e h = elim (Bool-cases (nat_eq (length bs) 0)) [
  | inl y ↦
      let end : finished t (wait w) ≡ finished t' v = ground arith in
      Round.nothing (nat_eq-zero (length bs) y) (finished-tally end) (finished-world end)
  | inr y ↦ elim (Step-cases (scan_batch now target bs t (wait w))) [
    | inr (u, k) ↦ absurd (ground arith)
    | inl (t1, u, k) ↦ elim (Bool-cases (ltb (length bs) batch_size)) [
      | inl l ↦
          let end : finished t1 (touch target token u) ≡ finished t' v =
            sym (rw (e, y, k, l, scan_loop)) ∙ h in
          Round.short u (ltb-lt (length bs) batch_size l)
            (k ∙ ap (λ x. counted x u) (finished-tally end)) (finished-world end)
      | inr l ↦
          Round.full t1 u (ltb-ne-lt (length bs) batch_size l) k
            (sym (rw (e, y, k, l, scan_loop)) ∙ h)
    ]
  ]
]

none-finished :
    (n now : ℕ) (target token : String) (cursor : ℕ) (t t' : Tally) (w v : World)
    → batch_of cursor (wait w).store.stream ≡ none
    → scan_loop (suc n) now target token cursor t w ≡ finished t' v
    → ⊥
unfolding scan_loop
none-finished n now target token cursor t t' w v e h = ground arith

loop-blocked :
    (n now : ℕ) (target token : String) (cursor : ℕ) (t t' : Tally) (w v : World)
    → scan_loop n now target token cursor t w ≡ finished t' v
    → blocked t' ≡ 0
    → blocked t ≡ 0
unfolding scan_loop
loop-blocked zero now target token cursor t t' w v h z = absurd (ground arith)
loop-blocked (suc n) now target token cursor t t' w v h z =
    elim (Option-cases (batch_of cursor (wait w).store.stream)) [
      | inl e ↦ absurd (none-finished n now target token cursor t t' w v e h)
      | inr (bs, e) ↦ elim (round n now target token cursor t t' w v bs e h) [
        | nothing l s x ↦ rw s z
        | short u l k x ↦ batch-blocked now target bs t t' (wait w) u k z
        | full t1 u l k rest ↦ batch-blocked now target bs t t1 (wait w) u k (
            loop-blocked n now target token (cursor + length bs) t1 t' (touch target token u) v rest
              z)
      ]
    ]

full-size :
    (bs : List StreamEntry)
    → (length bs < batch_size → ⊥)
    → length bs < suc batch_size
    → length bs ≡ batch_size
full-size bs f l = elim (Bool-cases (ltb (length bs) batch_size)) [
  | inl y ↦ absurd (f (ltb-lt (length bs) batch_size y))
  | inr y ↦ ground arith
]

All-empty : (P : StreamEntry → Type 0) (bs : List StreamEntry) → length bs ≡ 0 → All P bs
All-empty P [] h = tt
All-empty P (e ∷ bs) h = absurd (omega arith)

-- What stands at the end of the loop, for the entries from the cursor on.
abbrev pub IsSettled : ℕ → String → ℕ → ℕ → ℕ → List StreamEntry → World → World → Type 0
IsSettled now target start later cursor es w v =
    IsCalm target start later v
    × StaysDead now target w v
    × All (λ e. EntryFits now target v e) (drop cursor es)

batch-settles :
    (now : ℕ) (target token : String) (start later : ℕ) (bs : List StreamEntry) (t t1 : Tally)
    (w u : World)
    → later < start + fence_ttl_ms
    → scan_batch now target bs t (wait w) ≡ counted t1 u
    → blocked t1 ≡ 0
    → IsCalm target start later w
    → IsQuiet now target start later bs w (touch target token u)
batch-settles now target token start later bs t t1 w u b k z calm =
    let (calm1, keep1) = wait-IsCalm target start later now w b calm in
    let (calm2, keep2, fits) =
      batch-IsQuiet now target start later bs t t1 (wait w) u b k z calm1 in
    let (calm3, keep3) = touch-IsCalm target token start later now u b calm2 in
    (
      calm3,
      λ i g. keep3 i (keep2 i (keep1 i g)),
      All-imp (λ e. EntryFits now target u e) (λ e. EntryFits now target (touch target token u) e)
          (λ e. StaysDead-entries now target u (touch target token u) e keep3) bs fits,
    )

pub loop-IsSettled :
    (n now : ℕ) (target token : String) (start later cursor : ℕ) (es : List StreamEntry)
    (t t' : Tally) (w v : World)
    → later < start + fence_ttl_ms
    → scan_loop n now target token cursor t w ≡ finished t' v
    → blocked t' ≡ 0
    → IsCalm target start later w
    → Holds es w.store
    → IsSettled now target start later cursor es w v
unfolding scan_loop
loop-IsSettled zero now target token start later cursor es t t' w v b h z calm k =
    absurd (ground arith)
loop-IsSettled (suc n) now target token start later cursor es t t' w v b h z calm k =
    let (more, there) = wait-Holds w es k in
    let bs = take batch_size (drop cursor (es ++ more)) in
    let read_it : batch_of cursor (wait w).store.stream ≡ some bs = rw there in
    elim (round n now target token cursor t t' w v bs read_it h) [
      | nothing l s x ↦
          let (calm', keep) = wait-IsCalm target start later now w b calm in
          rw⁻¹ x (
            calm',
            keep,
            last-All (λ e. EntryFits now target (wait w) e) batch_size cursor es more (omega arith)
                (All-empty _ bs l),
          )
      | short u l i x ↦
          let (calm', keep, fits) =
            batch-settles now target token start later bs t t' w u b i z calm in
          rw⁻¹ x (
            calm',
            keep,
            last-All (λ e. EntryFits now target (touch target token u) e) batch_size cursor es more
                l fits,
          )
      | full t1 u l i rest ↦
          let z1 =
            loop-blocked n now target token (cursor + length bs) t1 t' (touch target token u) v rest
              z in
          let (calm1, keep1, fits) =
            batch-settles now target token start later bs t t1 w u b i z1 calm in
          let holds =
            touch-Holds target token u es
              (batch-Holds now target bs t t1 (wait w) u es i z1 (wait-Holds w es k)) in
          let (calm2, keep2, others) =
            loop-IsSettled n now target token start later (cursor + length bs) es t1 t'
              (touch target token u) v b rest z calm1 holds in
          let size : length bs ≡ batch_size =
            full-size bs l (length-take-le batch_size (drop cursor (es ++ more))) in
          (
            calm2,
            λ j g. keep2 j (keep1 j g),
            next-All (λ e. EntryFits now target v e) batch_size cursor es more
                (All-imp (λ e. EntryFits now target (touch target token u) e)
                  (λ e. EntryFits now target v e)
                  (λ e. StaysDead-entries now target (touch target token u) v e keep2) bs fits)
                (subst (λ m. All (λ e. EntryFits now target v e) (drop (cursor + m) es)) size
                  others),
          )
    ]
