-- ===== src/Names/Words.antt =====
-- common/utils/normalize-name.ts: a name is normalised by its words.
use restosync_api.Base.{
  ◌≡◌, refl, sym, ap, ◌∙◌, ◌⊎◌, inl, inr, Bool, true, false, not, List, [], ◌∷◌, ◌++◌, arith,
  Bool-cases, if◌then◌else◌,
}
use restosync_api.Base.Text.{Text, is_space}
use restosync_api.World.{Env}
use restosync_api.Names.{trim_start, trim_end, trim, is_empty, collapse, normalize_name}

-- A text that begins inside a word
abbrev pub starts_word : Text → Bool
starts_word [] = false
starts_word (c ∷ s) = not (is_space c)

abbrev pub onto_first : Text → List Text → List Text
onto_first start [] = start ∷ []
onto_first start (word ∷ rest) = (start ++ word) ∷ rest

-- The words of a text: the runs of characters between white space
pub words : Text → List Text
words [] = []
words (c ∷ s) =
    let rest = words s in
    if is_space c then rest else if starts_word s then onto_first (c ∷ []) rest else (c ∷ []) ∷ rest

-- The words with one space between two
mutual
  pub join : List Text → Text
  join [] = []
  join (word ∷ rest) = word ++ join_after rest

  pub join_after : List Text → Text
  join_after [] = []
  join_after (word ∷ rest) = 32 ∷ word ++ join_after rest

abbrev no_words : List Text → Bool
no_words [] = true
no_words (word ∷ rest) = false

-- What `collapse` makes of the rest of a text, in white space and in a word
record Collapses (s : Text) : Type 0 where
  emptied : is_empty (trim_end s) ≡ no_words (words s)
  in_space : collapse true (trim_end s) ≡ join (words s)
  in_word :
      collapse false (trim_end s) ≡ (if starts_word s then join (words s) else join_after (words s))

join-space : (ws : List Text) → no_words ws ≡ false → 32 ∷ join ws ≡ join_after ws
unfolding join
join-space [] h = cc
join-space (word ∷ rest) h = refl

join-onto :
    (c : _) (ws : List Text) → no_words ws ≡ false → join (onto_first (c ∷ []) ws) ≡ c ∷ join ws
unfolding join
join-onto c [] h = cc
join-onto c (word ∷ rest) h = refl

no_words-onto : (c : _) (ws : List Text) → no_words (onto_first (c ∷ []) ws) ≡ false
no_words-onto c [] = refl
no_words-onto c (word ∷ rest) = refl

no_words-starts : (s : Text) → starts_word s ≡ true → no_words (words s) ≡ false
unfolding words
no_words-starts [] h = cc
no_words-starts (c ∷ s) h = elim (Bool-cases (is_space c)) [
  | inl space ↦ ground arith
  | inr letter ↦ elim (Bool-cases (starts_word s)) [
    | inl e ↦ rw (letter, e) (no_words-onto c (words s))
    | inr e ↦ rw (letter, e) refl
  ]
]

join_empty : (ws : List Text) → no_words ws ≡ true → join ws ≡ []
unfolding join
join_empty [] h = refl
join_empty (word ∷ rest) h = cc

after_empty : (ws : List Text) → no_words ws ≡ true → join_after ws ≡ []
unfolding join
after_empty [] h = refl
after_empty (word ∷ rest) h = cc

trim_end-Collapses : (s : Text) → Collapses s
unfolding trim_end collapse words join
trim_end-Collapses [] = record { emptied = refl; in_space = refl; in_word = refl }
trim_end-Collapses (c ∷ s) =
    let h = trim_end-Collapses s in
    elim (Bool-cases (is_space c)) [
      | inl space ↦ elim (Bool-cases (is_empty (trim_end s))) [
        | inl e ↦
            let none : no_words (words s) ≡ true = sym h.emptied ∙ e in
            record {
              emptied = rw (space, e) (sym none);
              in_space = rw (space, e) (sym (join_empty (words s) none));
              in_word = rw (space, e) (sym (after_empty (words s) none));
            }
        | inr e ↦
            let some_word : no_words (words s) ≡ false = sym h.emptied ∙ e in
            record {
              emptied = rw (space, e) (sym some_word);
              in_space = rw (space, e, space) h.in_space;
              in_word =
                  rw (space, e, space)
                    (ap (λ t. 32 ∷ t) h.in_space ∙ join-space (words s) some_word);
            }
      ]
      | inr letter ↦ elim (Bool-cases (starts_word s)) [
        | inl e ↦
            let some_word = no_words-starts s e in
            let inside : collapse false (trim_end s) ≡ join (words s) = h.in_word ∙ rw e refl in
            record {
              emptied = rw (letter, e) (sym (no_words-onto c (words s)));
              in_space = rw (letter, e, letter, inside) (sym (join-onto c (words s) some_word));
              in_word = rw (letter, e, letter, inside) (sym (join-onto c (words s) some_word));
            }
        | inr e ↦
            let inside : collapse false (trim_end s) ≡ join_after (words s) =
              h.in_word ∙ rw e refl in
            record {
              emptied = rw (letter, e) refl;
              in_space = rw (letter, e, letter, inside) refl;
              in_word = rw (letter, e, letter, inside) refl;
            }
      ]
    ]

-- What `trim` takes off the start has no words, and what is left begins with one.
words-trim_start :
    (s : Text)
    → (words (trim_start s) ≡ words s)
      × (trim_end (trim_start s) ≡ [] ⊎ (starts_word (trim_start s) ≡ true))
unfolding trim_start trim_end words
words-trim_start [] = (refl, inl refl)
words-trim_start (c ∷ s) = elim (Bool-cases (is_space c)) [
  | inl space ↦ rw space (words-trim_start s)
  | inr letter ↦ rw letter (rw letter refl, inr (rw letter refl))
]

-- The normalized form of a name is what `toLowerCase` makes of its words, the runs of characters
-- that are not white space, joined by single spaces.
pub normalize_name-words :
    (env : Env) (name : Text) → normalize_name env name ≡ env.to_lower_case (join (words name))
unfolding normalize_name trim collapse
normalize_name-words env name =
    let (same, start) = words-trim_start name in
    let h = trim_end-Collapses (trim_start name) in
    ap env.to_lower_case (elim start [
      | inl none ↦
          rw none
            (sym (join_empty (words name) (ap no_words (sym same) ∙ sym h.emptied ∙ rw none refl)))
      | inr some_word ↦ h.in_word ∙ rw some_word (ap join same)
    ])
