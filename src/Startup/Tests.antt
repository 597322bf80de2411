-- ===== src/Startup/Tests.antt =====
-- Starting from the settings of Config's tests.
use network_ultra_server.Prelude.{◌≡◌, ◌≢◌, ◌⊎◌, [], ◌∷◌, arith, Option, none, some, true}
use network_ultra_server.Strings.{Bytes}
use network_ultra_server.Config.Tests.{parsers, laws, settings, filled, toml_path, read, loaded}
use network_ultra_server.Config.Validate.{decoded}
use network_ultra_server.Startup.{Setup, exits, starts, start}
use network_ultra_server.Startup.Validated.{IsGuarded, start_guards}

abbrev hash : Bytes → Option Bytes
hash password = some (36 ∷ password)

hash_printed : (password h : Bytes) → hash password ≡ some h → h ≢ []
hash_printed password h e = ground arith

start_guards_example :
    ((start parsers hash (λ a. true) filled ≡ exits 1) × (hash filled.server.password ≡ none))
    ⊎ ((s : Setup) × (start parsers hash (λ a. true) filled ≡ starts s) × IsGuarded filled s)
start_guards_example =
    start_guards parsers laws hash hash_printed (λ a. true) toml_path (decoded settings) filled read
      loaded
