-- ===== src/Store/Refusals/Patches.antt =====
-- UpdateSchedule (internal/store/schedules.go) when it is refused.
use ermine_tq.Prelude.{
  ℕ, String, Bool, true, false, ◌≡◌, refl, sym, ap, subst, ◌∙◌, some, List, [], ◌∷◌, ◌==◌,
  Bool-cases, inl, inr, arith, if◌then◌else◌, by_key, first_where, count_where, update_where,
  first-update_where,
}
use ermine_tq.Store.Models.{Schedule}
use ermine_tq.Store.Db.{
  Db, Env, World, Reply, ok, err, Error, not_found, context_done, driver_error, and_then, statement,
  write, fail,
}
use ermine_tq.Store.Statements.{schedule_key}
use ermine_tq.Store.Reads.{get_schedule-IsQuiet}
use ermine_tq.Store.Atomicity.{IsAtomic, undone, committed, unseen, opened, write-IsAtomic}
use ermine_tq.Store.Schedules.{
  UpdateScheduleInput, get_schedule, update_schedule, patch_tx, patch, is_empty,
}
use ermine_tq.Store.Refusals.{is_blamed, is_refused, IsClean, write-clean}

module _ ⦃env : Env⦄ where
  -- UpdateSchedule: a patch that matches no row changes none, and after one that matches a row
  -- the schedule is found.
  update-none :
      {R : Type 0} (p : R → Bool) (f : R → R) (rs : List R)
      → count_where p rs ≡ 0
      → update_where p f rs ≡ rs
  unfolding count_where update_where
  update-none p f [] h = refl
  update-none p f (r ∷ rs) h = ground (arith, update-none p f rs)

  first-counted :
      {R : Type 0} (p : R → Bool) (rs : List R)
      → (count_where p rs == 0) ≡ false
      → (r : R) × (first_where p rs ≡ some r)
  unfolding count_where first_where
  first-counted p [] h = let k : true ≡ false = h in cc
  first-counted p (r ∷ rs) h = elim (Bool-cases (p r)) [
    | inl e ↦ (r, rw e refl)
    | inr e ↦
        let k : (count_where p rs == 0) ≡ false = rw e at h in
        let (x, q) = first-counted p rs k in (x, rw e q)
  ]

  get_schedule-found :
      (id : String) (w : World) (s : Schedule)
      → first_where (by_key schedule_key id) w.db.schedules ≡ some s
      → is_refused (get_schedule id w).0 ≡ false
  unfolding get_schedule statement and_then
  get_schedule-found id w s h = elim (Bool-cases (env.fault w.statements)) [
    | inl b ↦ rw b refl
    | inr b ↦ rw (b, h) refl
  ]

  -- What the number that the patch returns says of the tables.
  abbrev Tells : String → Db → ℕ → Db → Type 0
  Tells id before n d =
      ((n == 0) ≡ true → d ≡ before)
      × ((n == 0) ≡ false
          → (s : Schedule) × (first_where (by_key schedule_key id) d.schedules ≡ some s))

  patched :
      (id : String) (input : UpdateScheduleInput) (d : Db)
      → Tells id d
          (count_where (by_key schedule_key id) d.schedules)
          (record d { schedules = update_where (by_key schedule_key id) (patch input) d.schedules })
  unfolding patch
  patched id input d = (
    λ h.
        ap (λ ss. record d { schedules = ss })
          (update-none (by_key schedule_key id) (patch input) d.schedules (ground arith)),
    λ h.
        let (s, q) = first-counted (by_key schedule_key id) d.schedules h in
        (
          _,
          first-update_where schedule_key (by_key schedule_key id) id (patch input) (λ r. refl)
              d.schedules s q,
        ),
  )

  patch_tx-Tells :
      (id : String) (input : UpdateScheduleInput) (w : World) (n : ℕ)
      → (patch_tx id input w).0 ≡ ok n
      → Tells id w.db n (patch_tx id input w).1.db
  unfolding patch_tx statement
  patch_tx-Tells id input w n h = elim (Bool-cases (env.fault w.statements)) [
    | inl b ↦ let k : err driver_error ≡ ok n = rw b at h in cc
    | inr b ↦
        let k : ok (count_where (by_key schedule_key id) w.db.schedules) ≡ ok n = rw b at h in
        let e : count_where (by_key schedule_key id) w.db.schedules ≡ n = cc in
        rw (sym e, b) (patched id input w.db)
  ]

  write-Tells :
      (id : String) (before : Db) (r s : Reply ℕ × World)
      → IsAtomic before r s
      → ((n : ℕ) → r.0 ≡ ok n → Tells id before n r.1.db)
      → (n : ℕ) → s.0 ≡ ok n
      → Tells id before n s.1.db
  write-Tells id before r s (undone e p q) t n h = let k : err e ≡ ok n = sym p ∙ h in cc
  write-Tells id before r s (committed a p q d) t n h =
      let e : ok a ≡ ok n = sym q ∙ h in subst (Tells id before n) (sym d) (t n (p ∙ e))
  write-Tells id before r s (unseen a p q d) t n h =
      let k : err context_done ≡ ok n = sym q ∙ h in cc

  read_back :
      (id : String) (before : Db) (s : Reply ℕ × World)
      → ((n : ℕ) → s.0 ≡ ok n → Tells id before n s.1.db)
      → ((e : Error) → s.0 ≡ err e → is_blamed e ≡ true → s.1.db ≡ before)
      → let r = and_then s (λ n. if n == 0 then fail not_found else get_schedule id) in
        is_refused r.0 ≡ true → r.1.db ≡ before
  unfolding and_then
  read_back id before (err e, w) t u h = u e refl h
  read_back id before (ok n, w) t u h = elim (Bool-cases (n == 0)) [
    | inl b ↦ rw b ((t n refl).0 b)
    | inr b ↦
        let (s, q) = (t n refl).1 b in
        let k : is_refused (get_schedule id w).0 ≡ true = rw b at h in
        let z = get_schedule-found id w s q in cc
  ]

  pub update_schedule-IsClean :
      (id : String) (input : UpdateScheduleInput) → IsClean (update_schedule id input)
  unfolding update_schedule
  update_schedule-IsClean id input = elim (Bool-cases (is_empty input)) [
    | inl b ↦ rw b (record { clean = λ w h. (get_schedule-IsQuiet id).same_db w })
    | inr b ↦ rw b (record {
      clean = λ w.
          read_back id w.db (write (patch_tx id input) w)
            (write-Tells id w.db _ _ (write-IsAtomic (patch_tx id input) w)
              (patch_tx-Tells id input (opened w)))
            (λ e p h. write-clean _ _ _ (write-IsAtomic (patch_tx id input) w) (rw p h));
    })
  ]
