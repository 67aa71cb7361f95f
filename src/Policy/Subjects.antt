-- ===== src/Policy/Subjects.antt =====
-- natsSubjectMatch decides the relation of NATS wildcards on tokens, in which the wildcard ">" also
-- stands for no token at all.
use underpass_runtime.Base.{
  ◌≡◌, refl, ◌↔◌, ◌⊎◌, inl, inr, true, ◌&&◌, ◌||◌, List, [], ◌∷◌, ◌++◌, arith, Bool-cases,
  &&-eq-true, ||-eq-true,
}
use underpass_runtime.Text.{Text, codes, text_eq, trim_space, split}
use underpass_runtime.Text.Laws.{eq_of_text_eq, text_eq_of_eq}
use underpass_runtime.Policy.Patterns.{nats_tokens_match, nats_subject_match}

-- Pattern tokens against subject tokens.
pub data Matches : List Text → List Text → Type 0 where
  done : Matches [] []
  tail_wildcard : {p : Text} {ps ss : List Text} → p ≡ codes ">" → Matches (p ∷ ps) ss
  one_wildcard :
      {p s : Text} {ps ss : List Text} → p ≡ codes "*" → Matches ps ss → Matches (p ∷ ps) (s ∷ ss)
  same : {p s : Text} {ps ss : List Text} → s ≡ p → Matches ps ss → Matches (p ∷ ps) (s ∷ ss)

step-Matches :
    {p s : Text} {ps ss : List Text}
    → (nats_tokens_match ps ss ≡ true → Matches ps ss)
    → ((text_eq p (codes "*") || text_eq s p) && nats_tokens_match ps ss) ≡ true
    → Matches (p ∷ ps) (s ∷ ss)
step-Matches {p} {s} rest h =
    let (a, b) = &&-eq-true _ _ h in
    elim (||-eq-true (text_eq p (codes "*")) (text_eq s p) a) [
      | inl star ↦ one_wildcard (eq_of_text_eq p (codes "*") star) (rest b)
      | inr eq ↦ same (eq_of_text_eq s p eq) (rest b)
    ]

tokens-Matches : (ps ss : List Text) → nats_tokens_match ps ss ≡ true → Matches ps ss
unfolding nats_tokens_match
tokens-Matches [] [] h = done
tokens-Matches [] (s ∷ ss) h = absurd (cc)
tokens-Matches (p ∷ ps) [] h = tail_wildcard (eq_of_text_eq p (codes ">") h)
tokens-Matches (p ∷ ps) (s ∷ ss) h = elim (Bool-cases (text_eq p (codes ">"))) [
  | inl e ↦ tail_wildcard (eq_of_text_eq p (codes ">") e)
  | inr e ↦ step-Matches (tokens-Matches ps ss) (rw e at h)
]

Matches-tokens : {ps ss : List Text} → Matches ps ss → nats_tokens_match ps ss ≡ true
unfolding nats_tokens_match
Matches-tokens done = refl
Matches-tokens (tail_wildcard {p} {ss = []} e) = text_eq_of_eq p (codes ">") e
Matches-tokens (tail_wildcard {p} {ss = s ∷ ss} e) = rw (text_eq_of_eq p (codes ">") e)
Matches-tokens (one_wildcard {p} {s} e m) =
    ground (arith, text_eq_of_eq p (codes "*") e, Matches-tokens m)
Matches-tokens (same {p} {s} e m) = ground (arith, text_eq_of_eq s p e, Matches-tokens m)

-- The tokens that the code compares.
abbrev pub tokens : Text → List Text
tokens t = split b'.' (trim_space t)

-- A pattern accepts a subject exactly when they are the same text, or the pattern's tokens match
-- the subject's.
pub nats_subject_match_iff :
    (pattern subject : Text)
    → (nats_subject_match pattern subject ≡ true)
      ↔ ((pattern ≡ subject) ⊎ Matches (tokens pattern) (tokens subject))
unfolding nats_subject_match
nats_subject_match_iff pattern subject = (forth, back)
  where
    forth :
        (text_eq pattern subject || nats_tokens_match (tokens pattern) (tokens subject)) ≡ true
        → (pattern ≡ subject) ⊎ Matches (tokens pattern) (tokens subject)
    forth h = elim (||-eq-true (text_eq pattern subject) _ h) [
      | inl e ↦ inl (eq_of_text_eq pattern subject e)
      | inr e ↦ inr (tokens-Matches _ _ e)
    ]

    back :
        (pattern ≡ subject) ⊎ Matches (tokens pattern) (tokens subject)
        → (text_eq pattern subject || nats_tokens_match (tokens pattern) (tokens subject)) ≡ true
    back (inl e) = rw (text_eq_of_eq pattern subject e)
    back (inr m) = ground (arith, Matches-tokens m)

tail-Matches : (ps : List Text) → Matches (ps ++ codes ">" ∷ []) ps
tail-Matches [] = tail_wildcard refl
tail-Matches (p ∷ ps) = same refl (tail-Matches ps)

-- A list of tokens with ">" after it, as a pattern, accepts that list of tokens as a subject:
-- "orders.>" accepts "orders".
pub nats_tokens_match-tail : (ps : List Text) → nats_tokens_match (ps ++ codes ">" ∷ []) ps ≡ true
nats_tokens_match-tail ps = Matches-tokens (tail-Matches ps)
