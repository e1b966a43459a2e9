-- ===== src/Agent/Secrets.antt =====
-- `obfuscate_secrets` of agent/logline_agent/client.py: tokens are masked in what is logged.
use logline.Base.{
  ℕ, zero, suc, ◌-◌, ◌≡◌, refl, ◌&&◌, ◌||◌, Option, none, some, [], ◌∷◌, ◌++◌, leb, ◌==◌,
  if◌then◌else◌, length, take, drop, Text, codes,
}
use logline.Agent.Markers.{after}

-- `\s+` of ASCII white space, as what it matches and what follows.
unfoldable pub spaces : Text → Text × Text
spaces [] = ([], [])
spaces (c ∷ s) =
    let (w, r) = spaces s in if c == 32 || (leb 9 c && leb c 13) then (c ∷ w, r) else ([], c ∷ s)

-- The characters before the next quote, and what follows the quote.
unfoldable pub to_quote : Text → Option (Text × Text)
to_quote [] = none
to_quote (c ∷ s) =
    let rest = to_quote s in
    if c == b'"' then some ([], s) else elim rest [ none ↦ none | some (t, r) ↦ some (c ∷ t, r) ]

-- The first and the last two characters of a token that has more than four.
unfoldable pub masked : Text → Option Text
masked t =
    if leb 5 (length t) then some (take 2 t ++ (codes "..." ++ drop (length t - 2) t)) else none

abbrev pub key : Text
key = codes "\"client_token\":"

unfoldable pub after_spaces : Text × Text → Option (Text × Text)
after_spaces ([], r) = none
after_spaces (c ∷ w, []) = none
after_spaces (c ∷ w, d ∷ r) = if d == b'"' then some (c ∷ w, r) else none

unfoldable pub masked_token : Text → Option (Text × Text) → Option (Text × Text)
masked_token head none = none
masked_token head (some (t, r)) = elim (masked t) [
  | none ↦ none
  | some m ↦ some (head ++ (m ++ codes "\""), r)
]

-- The pattern at the head of a text: what it is replaced by, and what follows the match.
unfoldable pub match_secret : Text → Option (Text × Text)
unfolding after_spaces masked_token masked to_quote spaces
match_secret s = elim (after key s) [
  | none ↦ none
  | some r ↦ elim (after_spaces (spaces r)) [
    | none ↦ none
    | some (w, r') ↦ masked_token (key ++ (w ++ codes "\"")) (to_quote r')
  ]
]

-- `re.sub`: from left to right, going on behind each match.
unfoldable pub sub : ℕ → Text → Text
unfolding match_secret
sub zero s = s
sub (suc fuel) [] = []
sub (suc fuel) (c ∷ s) =
    let skipped = c ∷ sub fuel s in
    elim (match_secret (c ∷ s)) [ none ↦ skipped | some (m, r) ↦ m ++ sub fuel r ]

-- A round for each character is enough.
unfoldable pub obfuscate_secrets : Text → Text
unfolding sub
obfuscate_secrets json_str = sub (suc (length json_str)) json_str

obfuscate-topsecret :
    obfuscate_secrets (codes "{\"auth\": {\"client_token\": \"topsecret\"}}")
    ≡ codes "{\"auth\": {\"client_token\": \"to...et\"}}"
unfolding obfuscate_secrets after
obfuscate-topsecret = refl
