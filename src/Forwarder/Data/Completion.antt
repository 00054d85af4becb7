-- ===== src/Forwarder/Data/Completion.antt =====
-- The end of the loop of `forward_data`.
use remote_trans.Base.{
  ℕ, zero, suc, ◌<◌, ◌≡◌, ◌≢◌, refl, ap, ◌∙◌, Bool, true, not, Option, none, some, List, [], ◌∷◌, ℤ,
  pos, negsuc, pos_part, arith, is_pos, ltb→lt, length, take, drop, length-drop, length-take,
}
use remote_trans.World.{World, Reply, reply, after, malloc, send, recv, script-after}
use remote_trans.Forwarder.Types.{Pair, Config, Served}
use remote_trans.Forwarder.Data.{Written, write_all, forward_data}

-- Each call of `send` on the descriptor takes a byte at least.
abbrev pub Takes : ℤ → World → Type 0
Takes fd w = (n : ℕ) (bs : List ℕ) → is_pos (w.script n (send fd bs)).ret ≡ true

there {ℓ} : {A : Type ℓ} (m : Option A) → m ≢ none → (x : A) × (m ≡ some x)
there none h = absurd (h refl)
there (some x) h = (x, refl)

is_pos-pos_part : (z : ℤ) → is_pos z ≡ true → 0 < pos_part z
is_pos-pos_part (pos n) h = ltb→lt 0 n h
is_pos-pos_part (negsuc n) h = cc

write_all-ends :
    (fuel : ℕ) (fd : ℤ) (client : Bool) (reason rest : List ℕ) (p : Pair) (w : World)
    → Takes fd w
    → length rest < fuel
    → (a : Written) × (write_all fuel fd client reason rest p w ≡ some a) × (a.ok ≡ true)
unfolding write_all
write_all-ends zero fd client reason rest p w v h = ground (arith, h)
write_all-ends (suc fuel) fd client reason [] p w v h = (_, refl, refl)
write_all-ends (suc fuel) fd client reason (b ∷ bs) p w v h =
    let next =
      write_all-ends fuel fd client reason
        (drop (pos_part (reply (send fd (b ∷ bs)) w).ret) (b ∷ bs)) p (after (send fd (b ∷ bs)) w)
        (λ n cs.
          ap (λ f. is_pos (f n (send fd cs)).ret) (script-after (send fd (b ∷ bs)) w) ∙ v n cs)
        shorter in
    (next.0, ground (arith, v w.tick (b ∷ bs), next.1), next.2)
  where
    r : Reply
    r = reply (send fd (b ∷ bs)) w

    positive : is_pos r.ret ≡ true
    positive = v w.tick (b ∷ bs)

    shorter : length (drop (pos_part r.ret) (b ∷ bs)) < fuel
    shorter =
        omega (arith, h, is_pos-pos_part r.ret positive, length-drop {0} (pos_part r.ret) (b ∷ bs))

-- If every call of `send` on `to_fd` takes a byte at least, `forward_data` returns: a number of
-- rounds above the number that `recv` has returned is enough for its loop.
pub forward_data_ends :
    (fuel : ℕ) (cfg : Config) (from_fd to_fd : ℤ) (dir : Bool) (reason : List ℕ) (p : Pair)
    (w : World)
    → Takes to_fd w
    → pos_part (reply (recv from_fd) (after malloc w)).ret < fuel
    → (s : Served) × (forward_data fuel cfg from_fd to_fd dir reason p w ≡ some s)
unfolding forward_data
forward_data_ends fuel cfg from_fd to_fd dir reason p w v h =
    there _ (λ e. ground (arith, loop.1, e))
  where
    r : Reply
    r = reply (recv from_fd) (after malloc w)

    start : World
    start = after (recv from_fd) (after malloc w)

    loop :
        (a : Written) × (write_all fuel to_fd
            (not dir)
            reason
            (take (pos_part r.ret) r.bytes)
            p
            start
          ≡ some a)
        × (a.ok ≡ true)
    loop =
        write_all-ends fuel to_fd (not dir) reason (take (pos_part r.ret) r.bytes) p start
          (λ n cs.
            ap (λ f. is_pos (f n (send to_fd cs)).ret)
              (script-after (recv from_fd) (after malloc w) ∙ script-after malloc w)
            ∙ v n cs)
          (omega (arith, h, length-take {0} (pos_part r.ret) r.bytes))
