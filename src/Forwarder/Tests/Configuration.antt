-- ===== src/Forwarder/Tests/Configuration.antt =====
-- Tests of the configuration of rdp_forwarder.c.
use remote_trans.Base.{ℕ, ◌≡◌, refl, some, List, [], ◌∷◌, pos, negsuc, arith, codes}
use remote_trans.Forwarder.Config.{Key, max_clients, target_ip, atoi, init_config, load_config}
use remote_trans.Forwarder.Config.Settings.{number, setting_of}
use remote_trans.Forwarder.Config.Sizes.{Fits, load_config-Fits}
use remote_trans.Forwarder.Config.Loading.{IsValue, load_config-settings_file}
use remote_trans.Forwarder.Tests.Rounds.{floats}

-- At the edges of an `int`, and beyond a `long`.
atoi_edges :
    (atoi (codes " 2147483647x") ≡ pos 2147483647)
    × (atoi (codes "-2147483648") ≡ negsuc 2147483647)
    × (atoi (codes "4294967297") ≡ pos 1)
    × (atoi (codes "99999999999999999999") ≡ negsuc 0)
    × (atoi (codes "x") ≡ pos 0)
unfolding atoi
atoi_edges = (refl, refl, refl, refl, refl)

load_config-Fits_example :
    Fits (load_config floats (some (codes "target_ip = 111.222.333.444.555\n")) init_config).1
load_config-Fits_example =
    load_config-Fits floats (some (codes "target_ip = 111.222.333.444.555\n"))

abbrev entries : List (Key × List ℕ)
entries = (max_clients, codes "20") ∷ (target_ip, codes "10.0.0.7") ∷ []

max_clients-IsValue : IsValue max_clients (codes "20")
max_clients-IsValue = record {
  solid = (refl, (refl, (refl, tt)));
  no_zero = (refl, (refl, tt));
  room = omega arith;
}

target_ip-IsValue : IsValue target_ip (codes "10.0.0.7")
target_ip-IsValue = record {
  solid = (refl, (refl, (refl, (refl, (refl, (refl, (refl, (refl, (refl, tt)))))))));
  no_zero = (refl, (refl, (refl, (refl, (refl, (refl, (refl, (refl, tt))))))));
  room = omega arith;
}

load_config-settings_file_example :
    let file = codes "max_clients = 20\ntarget_ip = 10.0.0.7\n" in
    let (value, after) = load_config floats (some file) init_config in
    (value ≡ pos 1) × (setting_of max_clients after ≡ number (pos 20))
unfolding atoi
load_config-settings_file_example =
    load_config-settings_file floats entries init_config max_clients
      (max_clients-IsValue, (target_ip-IsValue, tt))
