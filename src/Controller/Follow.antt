-- ===== src/Controller/Follow.antt =====
-- Every update of the configuration leaves the processors in step with it.
use samaritan.Prelude.{◌≡◌, Bool, true, some, List, Bytes}
use samaritan.Config.Defs.{Wrappers}
use samaritan.Controller.Defs.{SvcHost, ProcOps, Controller}
use samaritan.Controller.Sync.{ProcLaws, InSync}

module _ {C P : Type 0} {kind : Bytes → Bool} {good : C → Bool} (ops : ProcOps C P)
    (laws : ProcLaws kind good ops)
    (all_start : (name : Bytes) (c : C) (hs : List SvcHost)
      → good c ≡ true
      → (p : P) × (ops.new_proc name c hs ≡ some p)) where
  abbrev Sync : Wrappers C → Controller P → Type 0
  Sync sws ctl = InSync ops laws all_start sws ctl
