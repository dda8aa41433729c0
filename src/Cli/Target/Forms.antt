-- ===== src/Cli/Target/Forms.antt =====
-- What `_split_target` of src/optisocks5/cli.py makes of the ways to write a target.
use optisocks.Prelude.{
  ℕ, ◌+◌, ℤ, ◌≤◌, ◌≡◌, refl, ◌∙◌, Bool, true, false, [], ◌∷◌, ◌++◌, Text, Result, ok, arith, ◌>>=◌,
  ◌==◌, if◌then◌else◌, starts_with,
}
use optisocks.Cli.Target.{
  Python, partition, count, int_of, split_bracketed, split_once, split_target,
}

-- A target as the usage has it. A name has no colon and does not begin with a bracket; what stands in
-- brackets has no closing one.
pub data Form : Type 0 where
  named : (host : Text) → Form
  named_port : (host port : Text) → Form
  bracketed : (host : Text) → Form
  bracketed_port : (host port : Text) → Form
  -- an IPv6 address without brackets
  bare : (host : Text) → Form

abbrev pub text : Form → Text
text (named host) = host
text (named_port host port) = host ++ b':' ∷ port
text (bracketed host) = b'[' ∷ (host ++ b']' ∷ [])
text (bracketed_port host port) = b'[' ∷ (host ++ b']' ∷ b':' ∷ port)
text (bare host) = host

abbrev pub opens : Text → Bool
opens [] = false
opens (c ∷ t) = c == b'['

abbrev pub IsForm : Form → Type 0
IsForm (named host) = (opens host ≡ false) × (count b':' host ≡ 0)
IsForm (named_port host port) = (opens host ≡ false) × (count b':' host ≡ 0) × (count b':' port ≡ 0)
IsForm (bracketed host) = count b']' host ≡ 0
IsForm (bracketed_port host port) = count b']' host ≡ 0
IsForm (bare host) = (opens host ≡ false) × (2 ≤ count b':' host)

-- The host and the port that are meant.
abbrev pub meant : Python → Form → ℤ → Result (Text × ℤ)
meant py (named host) default_port = ok (host, default_port)
meant py (named_port host port) default_port = int_of py port >>= λ n. ok (host, n)
meant py (bracketed host) default_port = ok (host, default_port)
meant py (bracketed_port host port) default_port = int_of py port >>= λ n. ok (host, n)
meant py (bare host) default_port = ok (host, default_port)

count-append : (c : ℕ) (s t : Text) → count c (s ++ t) ≡ count c s + count c t
unfolding count
count-append c [] t = omega arith
count-append c (x ∷ s) t = ground (arith, count-append c s t)

partition-append :
    (c : ℕ) (s t : Text) → count c s ≡ 0 → partition (c ∷ []) (s ++ c ∷ t) ≡ (s, true, t)
unfolding partition count
partition-append c [] t h = ground arith
partition-append c (x ∷ s) t h = ground (arith, partition-append c s t)

starts_with-opens : (t : Text) → starts_with (b'[' ∷ []) t ≡ opens t
starts_with-opens [] = refl
starts_with-opens (c ∷ t) = ground arith

opens-append : (s t : Text) → opens s ≡ false → opens (s ++ b':' ∷ t) ≡ false
opens-append [] t h = refl
opens-append (c ∷ s) t h = h

-- A target that does not begin with a bracket.
split_target_plain :
    (py : Python) (t : Text) (default_port : ℤ)
    → opens t ≡ false
    → split_target py t default_port
      ≡ (if count b':' t == 1 then split_once py t else ok (t, default_port))
unfolding split_target
split_target_plain py t default_port h = rw (starts_with-opens t, h)

split_once_lem :
    (py : Python) (host port : Text)
    → count b':' host ≡ 0
    → split_once py (host ++ b':' ∷ port) ≡ (int_of py port >>= λ n. ok (host, n))
unfolding split_once
split_once_lem py host port h = rw (partition-append b':' host port h)

split_bracketed_lem :
    (py : Python) (host : Text) (default_port : ℤ)
    → count b']' host ≡ 0
    → (split_bracketed py (host ++ b']' ∷ []) default_port ≡ ok (host, default_port))
      × ((port : Text)
          → split_bracketed py (host ++ b']' ∷ b':' ∷ port) default_port
            ≡ (int_of py port >>= λ n. ok (host, n)))
unfolding split_bracketed
split_bracketed_lem py host default_port h =
    (rw (partition-append b']' host [] h), λ port. rw (partition-append b']' host (b':' ∷ port) h))

one_colon :
    (host port : Text)
    → count b':' host ≡ 0
    → count b':' port ≡ 0
    → (count b':' (host ++ b':' ∷ port) == 1) ≡ true
unfolding count
one_colon host port h k = rw (count-append, h, k)

-- `_split_target` reads every form of a target as it is meant: the default port where none is written,
-- and else the number that `int` makes of it, or its ValueError.
pub split_target-text :
    (py : Python) (f : Form) (default_port : ℤ)
    → IsForm f
    → split_target py (text f) default_port ≡ meant py f default_port
unfolding split_target
split_target-text py (named host) d (o, none_in) = split_target_plain py host d o ∙ rw none_in
split_target-text py (named_port host port) d (o, h, k) =
    split_target_plain py (host ++ b':' ∷ port) d (opens-append host port o)
    ∙ rw (one_colon host port h k) (split_once_lem py host port h)
split_target-text py (bracketed host) d h = (split_bracketed_lem py host d h).0
split_target-text py (bracketed_port host port) d h = (split_bracketed_lem py host d h).1 port
split_target-text py (bare host) d (o, many) = split_target_plain py host d o ∙ ground arith
