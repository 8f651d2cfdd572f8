-- ===== src/Store/Atomicity.antt =====
-- The write path of internal/store/store.go: write, writeLoop and execTx.
use ermine_tq.Prelude.{suc, ◌≡◌, refl, Bool-cases, inl, inr}
use ermine_tq.Store.Db.{
  Db, World, Env, M, Reply, ok, err, Error, context_done, settle, exec_tx, Delivery, answered,
  abandoned, cancelled, refused, deliver, write,
}

-- How a write compares with `r`, the run of its body: `s` is what the caller of the write gets.
pub data IsAtomic {ℓ} {A : Type ℓ} (before : Db) (r s : Reply A × World) : Type ℓ where
  undone : (e : Error) → s.0 ≡ err e → s.1.db ≡ before → IsAtomic before r s
  committed : (a : A) → r.0 ≡ ok a → s.0 ≡ ok a → s.1.db ≡ r.1.db → IsAtomic before r s
  unseen : (a : A) → r.0 ≡ ok a → s.0 ≡ err context_done → s.1.db ≡ r.1.db → IsAtomic before r s

-- The world in which the body runs: the write is taken, and the transaction begun.
abbrev pub opened : World → World
opened w = record w { statements = suc w.statements; writes = suc w.writes }

module _ {ℓ} ⦃env : Env⦄ {A : Type ℓ} where
  settle-IsAtomic : (before : Db) (r : Reply A × World) → IsAtomic before r (settle before r)
  unfolding settle
  settle-IsAtomic before (ok a, w) = elim (Bool-cases (env.fault w.statements)) [
    | inl b ↦ rw b (undone _ refl refl)
    | inr b ↦ rw b (committed a refl refl refl)
  ]
  settle-IsAtomic before (err e, w) = undone e refl refl

  exec_tx-IsAtomic :
      (body : M A) (w : World)
      → IsAtomic w.db (body (record w { statements = suc w.statements })) (exec_tx body w)
  unfolding exec_tx
  exec_tx-IsAtomic body w = elim (Bool-cases (env.fault w.statements)) [
    | inl b ↦ rw b (undone _ refl refl)
    | inr b ↦ rw b (settle-IsAtomic _ _)
  ]

  hide :
      (before : Db) (r s : Reply A × World)
      → IsAtomic before r s
      → IsAtomic before r (err context_done, s.1)
  hide before r s (undone e p q) = undone _ refl q
  hide before r s (committed a p q d) = unseen a p refl d
  hide before r s (unseen a p q d) = unseen a p refl d

  deliver-IsAtomic :
      (c : Delivery) (body : M A) (w : World)
      → IsAtomic w.db (body (record w { statements = suc w.statements })) (deliver c body w)
  unfolding deliver
  deliver-IsAtomic answered body w = exec_tx-IsAtomic body w
  deliver-IsAtomic abandoned body w = hide _ _ _ (exec_tx-IsAtomic body w)
  deliver-IsAtomic cancelled body w = undone _ refl refl
  deliver-IsAtomic refused body w = undone _ refl refl

  -- Whatever the driver, the context and a closing store do to a write, it is of one of three
  -- kinds: it fails and the tables are as before; or its body succeeds, the caller gets the body's
  -- result, and the tables are as the body left them; or its body succeeds and the tables are as
  -- it left them, but the caller gets the error of its ended context.
  pub write-IsAtomic : (body : M A) (w : World) → IsAtomic w.db (body (opened w)) (write body w)
  unfolding write
  write-IsAtomic body w = deliver-IsAtomic (env.delivery w.writes) body _
