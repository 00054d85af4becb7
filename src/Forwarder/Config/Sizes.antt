-- ===== src/Forwarder/Config/Sizes.antt =====
-- The strings of the configuration, and the buffers that hold them.
use remote_trans.Base.{
  ℕ, zero, suc, ◌≤◌, Option, none, some, List, [], ◌∷◌, arith, length, length-take,
}
use remote_trans.Floats.{Floats}
use remote_trans.Forwarder.Types.{Config}
use remote_trans.Forwarder.Lines.{Line, skipped, invalid, setting, read_line}
use remote_trans.Forwarder.Config.{
  Key, target_ip, listen_interface, log_file, init_config, all_keys, find_key, assign, assign_found,
  set_key, obey, c_string, fgets, load_lines, load_config,
}

-- Each string leaves room for the 0 at its end.
pub record Fits (c : Config) : Type 0 where
  pub ip : length c.target_ip ≤ 15
  pub interface : length c.listen_interface ≤ 15
  pub log : length c.log_file ≤ 255

init-Fits : Fits init_config
init-Fits = record { ip = omega arith; interface = omega arith; log = omega arith }

assign-Fits : (fl : Floats) (k : Key) (v : List ℕ) (c : Config) → Fits c → Fits (assign fl k v c)
unfolding assign
assign-Fits fl target_ip v c h = record {
  ip = omega (arith, length-take {0} 15 v);
  interface = h.interface;
  log = h.log;
}
assign-Fits fl listen_interface v c h = record {
  ip = h.ip;
  interface = omega (arith, length-take {0} 15 v);
  log = h.log;
}
assign-Fits fl log_file v c h = record {
  ip = h.ip;
  interface = h.interface;
  log = omega (arith, length-take {0} 255 v);
}
assign-Fits fl k v c h = record { ip = h.ip; interface = h.interface; log = h.log }

set_key-Fits : (fl : Floats) (text v : List ℕ) (c : Config) → Fits c → Fits (set_key fl text v c)
set_key-Fits fl text v c h = found (find_key text all_keys)
  where
    found : (o : Option Key) → Fits (assign_found fl o v c)
    found none = h
    found (some k) = assign-Fits fl k v c h

obey-Fits : (fl : Floats) (l : Line) (c : Config) → Fits c → Fits (obey fl l c)
obey-Fits fl skipped c h = h
obey-Fits fl invalid c h = h
obey-Fits fl (setting key v) c h = set_key-Fits fl key v c h

load_lines-Fits :
    (fl : Floats) (fuel : ℕ) (cs : List ℕ) (c : Config) → Fits c → Fits (load_lines fl fuel cs c)
unfolding load_lines
load_lines-Fits fl zero cs c h = h
load_lines-Fits fl (suc fuel) [] c h = h
load_lines-Fits fl (suc fuel) (x ∷ cs) c h =
    let r = fgets 255 (x ∷ cs) in
    load_lines-Fits fl fuel r.1 _ (obey-Fits fl (read_line (c_string r.0)) c h)

-- Whatever the configuration file holds, the three strings of the configuration fit their buffers of
-- 16, 16 and 256 bytes with the 0 at their end, starting from the defaults.
pub load_config-Fits :
    (fl : Floats) (file : Option (List ℕ)) → Fits (load_config fl file init_config).1
unfolding load_config
load_config-Fits fl none = init-Fits
load_config-Fits fl (some cs) = load_lines-Fits fl (length cs) cs init_config init-Fits
