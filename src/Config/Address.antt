-- ===== src/Config/Address.antt =====
-- `parse_address` of both configuration.py files.
use logline.Base.{
  ℕ, ◌^◌, ◌<◌, ◌≡◌, refl, ap, ◌∙◌, Bool, true, false, ◌&&◌, ◌||◌, not, Option, none, some, [], ◌∷◌,
  ◌++◌, arith, ◌==◌, if◌then◌else◌, all, length, Text, text_eq, is_empty, contains, Lacks, codes,
}
use logline.Base.Decimal.{is_digit, int_of, format, all-format, format-ne-nil, int_of-format}
use logline.Config.{other_error, Outcome, ok, err}

-- The text before the first colon, and what follows the colon.
unfoldable pub before_colon : Text → Text × Option Text
before_colon [] = ([], none)
before_colon (c ∷ s) = let (h, r) = before_colon s in if c == b':' then ([], some s) else (c ∷ h, r)

-- `$`: the end, or a newline before the end.
unfoldable pub at_end : Text → Bool
at_end s = is_empty s || text_eq s (codes "\n")

-- The digits that a text begins with, and what follows them.
unfoldable pub digits : Text → Text × Text
digits [] = ([], [])
digits (c ∷ s) = let (d, r) = digits s in if is_digit c then (c ∷ d, r) else ([], c ∷ s)

-- `([0-9]+)$`
unfoldable pub match_port : Text → Option Text
unfolding digits at_end
match_port s = let (d, r) = digits s in if not (is_empty d) && at_end r then some d else none

-- `^([^:]+):([0-9]+)$`
match_both : Text × Option Text → Option (Text × Text)
match_both (h, none) = none
match_both (h, some r) =
    if is_empty h then none else elim (match_port r) [ none ↦ none | some port ↦ some (h, port) ]

-- `^:?([0-9]+)$`
match_second : Text → Option Text
match_second [] = none
match_second (c ∷ s) = if c == b':' then match_port s else match_port (c ∷ s)

-- `int(port)`, which refuses very long texts.
with_port : Text → Option ℕ → Outcome (Text × ℕ)
with_port h none = err other_error
with_port h (some n) = ok (h, n)

unfoldable pub parse_address : Text → Outcome (Text × ℕ)
unfolding before_colon match_both match_second with_port match_port
parse_address s = elim (match_both (before_colon s)) [
  | some (h, port) ↦ with_port h (int_of port)
  | none ↦ elim (match_second s) [ some port ↦ with_port [] (int_of port) | none ↦ err other_error ]
]

digits-all : (s : Text) → all is_digit s ≡ true → digits s ≡ (s, [])
unfolding digits
digits-all [] h = refl
digits-all (c ∷ s) h = ground (arith, digits-all s)

not_empty : (s : Text) → 0 < length s → is_empty s ≡ false
not_empty [] h = absurd (omega arith)
not_empty (c ∷ s) h = refl

match_port-format : (n : ℕ) → match_port (format n) ≡ some (format n)
unfolding match_port at_end
match_port-format n =
    rw (digits-all (format n) (all-format n), not_empty (format n) (format-ne-nil n))

before_colon-append : (h r : Text) → Lacks b':' h → before_colon (h ++ (b':' ∷ r)) ≡ (h, some r)
unfolding before_colon contains
before_colon-append [] r l = refl
before_colon-append (c ∷ h) r l = ground (arith, before_colon-append h r)

before_colon-digits : (s : Text) → all is_digit s ≡ true → before_colon s ≡ (s, none)
unfolding before_colon is_digit
before_colon-digits [] h = refl
before_colon-digits (c ∷ s) h = ground (arith, before_colon-digits s)

match_second-digits :
    (s : Text) → all is_digit s ≡ true → 0 < length s → match_second s ≡ match_port s
unfolding match_second is_digit
match_second-digits [] h n = absurd (omega arith)
match_second-digits (c ∷ s) h n = ground arith

second : Text → Outcome (Text × ℕ)
second s = elim (match_second s) [ some port ↦ with_port [] (int_of port) | none ↦ err other_error ]

-- The two ways to read an address.
parse-first :
    (s h port : Text)
    → match_both (before_colon s) ≡ some (h, port)
    → parse_address s ≡ with_port h (int_of port)
unfolding parse_address
parse-first s h port e = rw (e, parse_address)

parse-second : (s : Text) → match_both (before_colon s) ≡ none → parse_address s ≡ second s
unfolding parse_address second
parse-second s e = rw (e, parse_address)

second-format :
    (s : Text) (n : ℕ) → n < 10 ^ 4300 → match_second s ≡ some (format n) → second s ≡ ok ([], n)
unfolding second with_port
second-format s n small e = rw (e, second) (rw (int_of-format n small))

match_both-some :
    (h r port : Text)
    → is_empty h ≡ false
    → match_port r ≡ some port
    → match_both (h, some r) ≡ some (h, port)
unfolding match_both
match_both-some h r port n e = rw n (rw (e, match_both))

-- An address that is written as a host, a colon and a port of at most 4300 digits is read as that
-- host and port, where the host is a text without colons that is not empty; the port alone, with or
-- without a colon before it, stands for the empty host.
pub parse_address-format :
    (h : Text) (port : ℕ)
    → Lacks b':' h
    → is_empty h ≡ false
    → port < 10 ^ 4300
    → (parse_address (h ++ (b':' ∷ format port)) ≡ ok (h, port))
      × (parse_address (b':' ∷ format port) ≡ ok ([], port))
      × (parse_address (format port) ≡ ok ([], port))
unfolding with_port match_both before_colon match_second match_port
parse_address-format h port l n small = (
  parse-first _ h (format port) (
        ap match_both (before_colon-append h (format port) l)
        ∙ match_both-some h (format port) (format port) n (match_port-format port))
      ∙ ap (with_port h) (int_of-format port small),
  parse-second (b':' ∷ format port) refl ∙ second-format _ port small (match_port-format port),
  parse-second (format port) (ap match_both (before_colon-digits (format port) (all-format port)))
      ∙ second-format _ port small (
          match_second-digits (format port) (all-format port) (format-ne-nil port)
          ∙ match_port-format port),
)
