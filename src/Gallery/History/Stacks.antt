-- ===== src/Gallery/History/Stacks.antt =====
-- The stacks by which the history follows a browser that does not tell where it is.
use mathlib.Core.List.{reverse, reverse-cons, reverse-append, reverse-reverse, append_assoc}
use nswall.Common.{
  ℕ, zero, suc, ◌+◌, ◌-◌, ◌≤◌, ◌≡◌, refl, ap, ◌∙◌, true, false, Option, none, List, [], ◌∷◌, ◌++◌,
  arith, length,
}
use nswall.Common.Texts.{Text, text_eq_refl}
use nswall.Gallery.History.{History, shuttle, check}

abbrev Stack : Type 0
Stack = List (Option Text)

length-shuttle :
    (n : ℕ) (from to : Stack)
    → (length (shuttle n from to).0 ≡ length from - n)
      × (length (shuttle n from to).1 ≡ n + length to)
unfolding shuttle
length-shuttle zero from to = (omega arith, omega arith)
length-shuttle (suc n) [] to =
    omega (arith, (length-shuttle n [] (none ∷ to)).0, (length-shuttle n [] (none ∷ to)).1)
length-shuttle (suc n) (x ∷ from) to =
    omega (arith, (length-shuttle n from (x ∷ to)).0, (length-shuttle n from (x ∷ to)).1)

-- Moving the end of one stack onto the other keeps what they hold together, in order.
shuttle-append :
    (n : ℕ) (from to : Stack)
    → n ≤ length from
    → reverse (shuttle n from to).0 ++ (shuttle n from to).1 ≡ reverse from ++ to
unfolding shuttle
shuttle-append zero from to h = refl
shuttle-append (suc n) [] to h = absurd (omega arith)
shuttle-append (suc n) (x ∷ from) to h =
    shuttle-append n from (x ∷ to) (omega arith) ∙ simp (reverse-cons, append_assoc)

-- What the two stacks hold, oldest first.
abbrev pub trail : History → List (Option Text)
trail s = reverse s.back ++ s.forward

-- After a check, in a browser that does not tell its address and unless checks are off, the back
-- stack is as long as the browser's history.
pub length-back_of_check :
    (s : History)
    → s.safari ≡ true
    → s.dont_check ≡ false
    → length (check s).0.back ≡ s.history_length
unfolding check
length-back_of_check s y z = ground (
  arith,
  length-shuttle (length s.back - s.history_length) s.back s.forward,
  length-shuttle (s.history_length - length s.back) s.forward s.back,
)

flip_append : (a b c d : Stack) → reverse a ++ b ≡ reverse c ++ d → reverse b ++ a ≡ reverse d ++ c
flip_append a b c d e = simp (reverse-append, reverse-reverse) at (ap reverse e)

-- In a browser that does not tell its address, unless checks are off, and where it has gone back,
-- or forward no further than the page has seen, a check loses nothing of the trail: it only moves
-- the boundary between the two stacks.
pub trail-check :
    (s : History)
    → s.safari ≡ true
    → s.dont_check ≡ false
    → s.history_length ≤ length s.back + length s.forward
    → trail (check s).0 ≡ trail s
unfolding check
trail-check s y z h = ground (
  arith,
  shuttle-append (length s.back - s.history_length) s.back s.forward,
  shuttle-append (s.history_length - length s.back) s.forward s.back,
  flip_append (shuttle (s.history_length - length s.back) s.forward s.back).0
      (shuttle (s.history_length - length s.back) s.forward s.back).1 s.forward s.back,
)

-- In a browser that tells its address a second check finds nothing new.
pub check_settles : (s : History) → s.safari ≡ false → check (check s).0 ≡ ((check s).0, false)
unfolding check
check_settles s z = ground (arith, text_eq_refl s.location_hash)
