-- ===== src/Dbs/Server/Race.antt =====
-- src/dbs.c: the server and its children, which share the table. A child sets `used` when it runs
-- for the first time, and clears it when it ends.
pub mod Serve
pub mod Distinct
pub mod Overwritten
use lmpc.Base.{
  ℕ, ◌+◌, ◌≡◌, ◌≢◌, refl, ap, sym, ◌∙◌, ◌⊎◌, inl, inr, Bool, true, false, List, [], ◌∷◌, ◌++◌,
  Option, none, some, get_elem?, arith, Bool-cases, Option-cases,
}
use lmpc.Base.Int.{ℤ, pos, negsuc}
use lmpc.Binblock.{Block}
use lmpc.Dbs.Packet.{Address}
use lmpc.Dbs.Server.{
  Player, Qsdb, Action, nothing, replies, serves, find_free, is_known, enlist, update, connect,
  reject,
}

-- The table, the children that have not run yet, and those that serve, by their numbers.
pub record World (T : Type 0) : Type 0 where
  pub shm : List (Player T)
  pub forked : List ℕ
  pub serving : List ℕ

module _ {T : Type 0} where
  -- `qsdb.shm[i].used = b` of a child.
  abbrev pub set_used : Bool → Player T → Player T
  set_used b p = record p { used = b }

module _ {T : Type 0} (Ready : World T → Type 0) where
  -- One step: the server serves a request to watch, where `Ready` lets it; or a child runs for the
  -- first time, or ends, in any order.
  pub data Step : World T → World T → Type 0 where
    connects :
        {w : World T} (q q' : Qsdb T) (i : ℕ) (from : Address) (now : T) (text : List ℕ) (n : ℕ)
        (r : Block)
        → Ready w
        → q.shm ≡ w.shm
        → connect from now text (pos n) r q ≡ serves i q'
        → Step w (record { shm = q'.shm; forked = i ∷ w.forked; serving = w.serving })
    no_child :
        {w : World T} (q q' : Qsdb T) (i : ℕ) (from : Address) (now : T) (text : List ℕ) (n : ℕ)
        (r : Block)
        → Ready w
        → q.shm ≡ w.shm
        → connect from now text (negsuc n) r q ≡ serves i q'
        → Step w (record w { shm = q'.shm })
    starts :
        {w : World T} (before after : List ℕ) (i : ℕ)
        → w.forked ≡ before ++ (i ∷ after)
        → Step w (record {
          shm = update i (set_used true) w.shm;
          forked = before ++ after;
          serving = i ∷ w.serving;
        })
    ends :
        {w : World T} (before after : List ℕ) (i : ℕ)
        → w.serving ≡ before ++ (i ∷ after)
        → Step w (record w { shm = update i (set_used false) w.shm; serving = before ++ after })

  pub data Reach (start : World T) : World T → Type 0 where
    here : Reach start start
    later : {w w' : World T} → Reach start w → Step w w' → Reach start w'
