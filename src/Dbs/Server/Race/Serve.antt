-- ===== src/Dbs/Server/Race/Serve.antt =====
-- src/dbs.c: what a request to watch that is served has done to the table.
use lmpc.Base.{ℕ, ◌≡◌, ap, sym, ◌∙◌, inl, inr, false, List, some, arith, Bool-cases, Option-cases}
use lmpc.Base.Int.{ℤ}
use lmpc.Binblock.{Block}
use lmpc.Dbs.Packet.{Address}
use lmpc.Dbs.Server.{Qsdb, serves, find_free, is_known, enlist, update, connect}

module _ {T : Type 0} where
  -- What a request that is served has done.
  pub record Served (from : Address) (now : T) (text : List ℕ) (fork : ℤ) (i : ℕ) (q q' : Qsdb T)
      : Type 0 where
    pub new_table : q'.shm ≡ update i (enlist from now text fork) q.shm
    pub is_free : find_free q.shm ≡ some i
    pub is_new : is_known from q.shm ≡ false

  pub connect-serves :
      (from : Address) (now : T) (text : List ℕ) (fork : ℤ) (r : Block) (q q' : Qsdb T) (i : ℕ)
      → connect from now text fork r q ≡ serves i q'
      → Served from now text fork i q q'
  unfolding connect
  connect-serves from now text fork r q q' i h = elim (Bool-cases (is_known from q.shm)) [
    | inl known ↦ ground arith
    | inr new ↦ elim (Option-cases (find_free q.shm)) [
      | inl full ↦ ground arith
      | inr (k, free) ↦
          let table = update k (enlist from now text fork) q.shm in
          let same : serves k (record q { shm = table }) ≡ serves i q' = rw (new, free) at h in
          let number : k ≡ i = cc in
          let server : record q { shm = table } ≡ q' = cc in
          record {
            new_table =
                sym (ap (λ x. x.shm) server)
                ∙ ap (λ n. update n (enlist from now text fork) q.shm) number;
            is_free = free ∙ ap some number;
            is_new = new;
          }
    ]
  ]
