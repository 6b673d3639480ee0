-- ===== src/Controller/Tests.antt =====
-- The theorem on the controller, at TCP processors.
use samaritan.Prelude.{
  ℕ, Bool, true, false, not, some, List, [], ◌∷◌, Bytes, bytes, bytes_equal, ◌==◌,
}
use samaritan.Tcp.Defs.{Checks}
use samaritan.Config.Defs.{Endpoint}
use samaritan.Controller.Sync.{Update, depends, configures, populates}

-- A configuration is a number, valid unless it is 0, with a health check of that number.
abbrev checks : Checks ℕ
checks = record {
  Check = ℕ;
  valid = λ c. not (c == 0);
  listens = λ c. true;
  health_check = λ c. some c;
  same = λ a b. false;
  accepts = λ h. true;
}

-- The host of port 82 is a backup.
abbrev kind : Bytes → Bool
kind a = bytes_equal a (bytes "10.0.0.1:82")

abbrev svc : Bytes
svc = bytes "users"

abbrev endpoint : ℕ → Endpoint
endpoint port = record {
  address = record { ip = bytes "10.0.0.1"; port = port; unrecognized = [] };
  backup = port == 82;
}

-- The service gets a configuration, then two endpoints, and then loses one of them for a third.
abbrev updates : List (Update ℕ)
updates =
    depends (svc ∷ []) []
    ∷ configures svc 1
    ∷ populates svc (endpoint 80 ∷ endpoint 81 ∷ []) []
    ∷ configures svc 2
    ∷ populates svc (endpoint 82 ∷ []) (endpoint 80 ∷ [])
    ∷ []
