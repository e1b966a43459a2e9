-- ===== src/Agent/Patterns/Done.antt =====
-- The names that `done_re` of agent/logline_agent/marker_watcher.py matches.
use logline.Base.{
  ◌≡◌, refl, sym, ap, ◌∙◌, ◌↔◌, ◌⊎◌, inl, inr, true, Option, none, some, ◌++◌, append_assoc, arith,
  Text, codes,
}
use logline.Host.{Host}
use logline.Agent.Markers.{after, span, ◌>>=◌, match_iso, is_hex, at_end, match_ending, match_done}
use logline.Agent.Patterns.{
  bind-some, after-append, after-some, IsSpan, span-append, span-some, IsIso, match_iso-append,
  match_iso-some, Ended, ended, if-some, Ended-cases,
}

-- What the names of the two markers end in.
abbrev pub IsEnding : Text → Type 0
IsEnding e = (e ≡ codes "compressed") ⊎ (e ≡ codes "uploaded")

-- Either ending, by what the first one's test gives.
either_ending : Text → Option Text → Option (Text × Text)
either_ending s (some rest) = some (codes "compressed", rest)
either_ending s none = after (codes "uploaded") s >>= λ rest. some (codes "uploaded", rest)

match_ending_lem : (s : Text) → match_ending s ≡ either_ending s (after (codes "compressed") s)
unfolding match_ending either_ending
match_ending_lem s = ground arith

IsEnding-found :
    (s : Text) (o : Option Text) (found : Text × Text)
    → after (codes "compressed") s ≡ o
    → either_ending s o ≡ some found
    → IsEnding found.0 × (s ≡ found.0 ++ found.1)
unfolding either_ending
IsEnding-found s (some rest) found e h =
    let same : found ≡ (codes "compressed", rest) = cc in
    rw same (inl refl, after-some (codes "compressed") s rest e)
IsEnding-found s none found e h =
    let (rest, f, g) = bind-some (after (codes "uploaded") s) _ found h in
    let same : found ≡ (codes "uploaded", rest) = cc in
    rw same (inr refl, after-some (codes "uploaded") s rest f)

match_ending-some :
    (s : Text) (found : Text × Text)
    → match_ending s ≡ some found
    → IsEnding found.0 × (s ≡ found.0 ++ found.1)
match_ending-some s found h =
    IsEnding-found s (after (codes "compressed") s) found refl (sym (match_ending_lem s) ∙ h)

match_ending-append : (e last : Text) → IsEnding e → match_ending (e ++ last) ≡ some (e, last)
unfolding match_ending after
match_ending-append e last (inl c) = rw c refl
match_ending-append e last (inr u) = rw u refl

-- The name of a marker of a rotation that is done.
abbrev pub done_name : Text → Text → Text → Text → Text
done_name basename iso sha ending =
    (basename ++ codes ".")
    ++ (iso ++ (codes "." ++ (sha ++ (codes ".xz.gpg.lh-logrotate-" ++ ending))))

done_assoc :
    (basename iso sha ending last : Text)
    → done_name basename iso sha ending ++ last
      ≡ (basename ++ codes ".")
        ++ (iso ++ (codes "." ++ (sha ++ (codes ".xz.gpg.lh-logrotate-" ++ (ending ++ last)))))
done_assoc basename iso sha ending last = simp append_assoc

-- The name of a marker for a rotation that is done, or that name with a newline behind it.
pub record IsDone (host : Host) (basename name iso sha13 : Text) : Type 0 where
  pub ending : Text
  pub is_ending : IsEnding ending
  pub iso_dt : IsIso host iso
  pub sha : IsSpan 13 is_hex sha13
  pub shape : Ended name (done_name basename iso sha13 ending)

module _ (host : Host) (basename name iso sha13 : Text) where
  match_done-some :
      match_done host basename name ≡ some (iso, sha13) → IsDone host basename name iso sha13
  unfolding match_done
  match_done-some h =
      let (rest, e, h₁) = bind-some (after (basename ++ codes ".") name) _ (iso, sha13) h in
      let (found, f, h₂) = bind-some (match_iso host rest) _ (iso, sha13) h₁ in
      let (dot, g, h₃) = bind-some (after (codes ".") found.1) _ (iso, sha13) h₂ in
      let (sha, k, h₄) = bind-some (span 13 is_hex dot) _ (iso, sha13) h₃ in
      let (mid, l, h₅) =
        bind-some (after (codes ".xz.gpg.lh-logrotate-") sha.1) _ (iso, sha13) h₄ in
      let (ending, m, h₆) = bind-some (match_ending mid) _ (iso, sha13) h₅ in
      let (at, same) = if-some (at_end ending.1) (found.0, sha.0) (iso, sha13) h₆ in
      let (split, is_iso) = match_iso-some host rest found.0 found.1 f in
      let (cut, count, class) = span-some 13 is_hex dot sha.0 sha.1 k in
      let (is_ending, last) = match_ending-some mid ending m in
      let whole : name ≡ done_name basename found.0 sha.0 ending.0 ++ ending.1 =
        after-some (basename ++ codes ".") name rest e
        ∙ (ap (λ x. (basename ++ codes ".") ++ x)
              (split
                ∙ ap (λ x. found.0 ++ x)
                    (after-some (codes ".") _ dot g
                      ∙ ap (λ x. codes "." ++ x)
                          (cut
                            ∙ ap (λ x. sha.0 ++ x)
                                (after-some (codes ".xz.gpg.lh-logrotate-") _ mid l
                                  ∙ ap (λ x. codes ".xz.gpg.lh-logrotate-" ++ x) last))))
            ∙ sym (done_assoc basename found.0 sha.0 ending.0 ending.1)) in
      let iso_same : found.0 ≡ iso = cc in
      let sha_same : sha.0 ≡ sha13 = cc in
      record {
        ending = ending.0;
        is_ending = is_ending;
        iso_dt = rw (← iso_same) is_iso;
        sha = rw (← sha_same) (record { count = count; class = class });
        shape =
            ended name (done_name basename iso sha13 ending.0) ending.1
              (whole
                ∙ (ap (λ x. done_name basename x sha.0 ending.0 ++ ending.1) iso_same
                    ∙ ap (λ x. done_name basename iso x ending.0 ++ ending.1) sha_same))
              at;
      }

  match_done-ended :
      (ending last : Text)
      → IsEnding ending
      → IsIso host iso
      → IsSpan 13 is_hex sha13
      → at_end last ≡ true
      → match_done host basename (done_name basename iso sha13 ending ++ last) ≡ some (iso, sha13)
  unfolding match_done after
  match_done-ended ending last en h sp e =
      let mid : Text = codes ".xz.gpg.lh-logrotate-" ++ (ending ++ last) in
      let behind : Text = codes "." ++ (sha13 ++ mid) in
      let shape : done_name basename iso sha13 ending ++ last
          ≡ (basename ++ codes ".") ++ (iso ++ behind) =
        done_assoc basename iso sha13 ending last in
      ap (match_done host basename) shape
      ∙ simp (
        after-append (basename ++ codes ".") (iso ++ behind),
        match_iso-append host iso behind h,
        span-append 13 is_hex sha13 mid sp.count sp.class,
        match_ending-append ending last en,
        e,
      )

-- A name is taken for the marker of a finished rotation of a file, with some date and hash, exactly when
-- it is the file's name, a date of eight digits, `T`, six digits and `Z`, thirteen hexadecimal digits in
-- lower case, and one of the two suffixes, joined by dots, up to a newline at its end.
pub match_done_iff :
    (host : Host) (basename name iso sha13 : Text)
    → (match_done host basename name ≡ some (iso, sha13)) ↔ IsDone host basename name iso sha13
match_done_iff host basename name iso sha13 = (
  (λ h. match_done-some host basename name iso sha13 h),
  (λ d.
      Ended-cases (λ x. match_done host basename x ≡ some (iso, sha13)) name
        (done_name basename iso sha13 d.ending)
        (λ last e.
          match_done-ended host basename name iso sha13 d.ending last d.is_ending d.iso_dt d.sha e)
        d.shape),
)
