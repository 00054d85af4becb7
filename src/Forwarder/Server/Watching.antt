-- ===== src/Forwarder/Server/Watching.antt =====
-- rdp_forwarder.c: what `main` does in a round before it looks at the descriptors: the pass that
-- reconnects targets, and `select`.
use remote_trans.Base.{
  ℕ, zero, suc, Bool, true, false, not, ◌&&◌, ◌||◌, List, [], ◌∷◌, ◌++◌, ℤ, pos, pos_part, is_pos,
  is_set, sub_ℕ, ltb_ℤ, tdiv, leb, eqb_ℤ, take, if◌then◌else◌,
}
use remote_trans.World.{World, reply, after, time}
use remote_trans.Forwarder.Types.{Pair, Pool, Config}
use remote_trans.Forwarder.Reconnect.{try_reconnect_target}

-- One pair of the pass: its client has gone and its target is not ready.
unfoldable pub revive : Config → Pair → World → Pair × World
revive cfg p w =
    let w1 = after time w in
    let s = try_reconnect_target cfg p w1 in
    let waited = sub_ℕ (reply time w).time.sec p.disconnect_time in
    if not (p.client_disconnected && not p.target_ready)
    then (p, w)
    else if ltb_ℤ waited (tdiv cfg.reconnect_delay 1000)
    then (p, w1)
    else (s.pair, s.world)

-- The first `n` pairs of the table.
unfoldable pub revive_all : Config → ℕ → List Pair → World → List Pair × World
revive_all cfg zero ps w = (ps, w)
revive_all cfg (suc n) [] w = ([], w)
revive_all cfg (suc n) (p ∷ ps) w =
    let (q, w1) = revive cfg p w in let (qs, w2) = revive_all cfg n ps w1 in (q ∷ qs, w2)

unfoldable pub reconnect_pass : Config → Pool → World → Pool × World
reconnect_pass cfg t w =
    let (ps, w1) = revive_all cfg t.connection_count t.connections w in
    if is_set cfg.enable_fast_reconnect then (record t { connections = ps }, w1) else (t, w)

abbrev pub open_fd : ℤ → List ℤ
open_fd fd = if is_pos fd then fd ∷ [] else []

-- The descriptors that are put into the set.
abbrev pub pair_fds : List Pair → List ℤ
pair_fds [] = []
pair_fds (p ∷ ps) = open_fd p.client_fd ++ (open_fd p.target_fd ++ pair_fds ps)

abbrev pub watched : ℤ → Pool → List ℤ
watched listen_fd t = listen_fd ∷ pair_fds (take t.connection_count t.connections)

-- `FD_SET` writes past the end of the set for a descriptor from FD_SETSIZE on.
abbrev pub outside : List ℤ → Bool
outside [] = false
outside (fd ∷ fds) = leb 1024 (pos_part fd) || outside fds

abbrev pub fd_set : List ℤ → World → World
fd_set fds w = if outside fds then record w { faulted = true } else w

abbrev pub holds_fd : List ℤ → ℤ → Bool
holds_fd [] fd = false
holds_fd (x ∷ xs) fd = eqb_ℤ x fd || holds_fd xs fd

abbrev pub is_number : List ℕ → ℤ → Bool
is_number [] fd = false
is_number (n ∷ ns) fd = eqb_ℤ (pos n) fd || is_number ns fd

-- `FD_ISSET` after `select`: the descriptor was asked for and is ready.
abbrev pub is_ready : List ℤ → List ℕ → ℤ → Bool
is_ready asked ready fd = holds_fd asked fd && is_number ready fd
