-- ===== src/Controllers/Splitting.antt =====
-- The lists of disruption types in the flags: joining with commas and cutting at them.
use Prim.Native.Char.{code}
use text.Mathlib.TextLemmas.{append-nil, append_assoc, nil-append, cons-append}
use node_disruption_controll.Prelude.{
  ℕ, zero, suc, String, ◌<>◌, Bool, true, false, not, ◌&&◌, List, [], ◌∷◌, ◌≡◌, refl, sym, ap, ◌∙◌,
  arith, All, ◌==◌, str_eq, if◌then◌else◌,
}
use node_disruption_controll.Resolver.Selectors.{join}
use node_disruption_controll.Controllers.Startup.{close_field, fields_from, split_types}

abbrev no_comma : String → Bool
no_comma String.[] = true
no_comma (String.◌∷◌ c s) = not (code c == b',') && no_comma s

-- A text that stands for one type in a flag: it is not empty and has no comma.
abbrev IsPiece : String → Type 0
IsPiece t = (no_comma t ≡ true) × (str_eq t "" ≡ false)

-- A text without commas is taken into the field in progress.
fields_from-append :
    (field t s : String)
    → no_comma t ≡ true
    → fields_from field (t <> s) ≡ fields_from (field <> t) s
unfolding fields_from
fields_from-append field String.[] s h =
    ap (fields_from field) (nil-append s) ∙ ap (λ f. fields_from f s) (sym (append-nil field))
fields_from-append field (String.◌∷◌ c t) s h =
    let letter = String.◌∷◌ c String.[] in
    let first : fields_from field (String.◌∷◌ c (t <> s)) ≡ fields_from (field <> letter) (t <> s) =
      ground arith in
    let together : (field <> letter) <> t ≡ field <> String.◌∷◌ c t =
      append_assoc field letter t
      ∙ ap (λ r. field <> r) (cons-append c "" t ∙ ap (String.◌∷◌ c) (nil-append t)) in
    ap (fields_from field) (cons-append c t s)
    ∙ first
    ∙ fields_from-append (field <> letter) t s (ground arith)
    ∙ ap (λ f. fields_from f s) together

-- A comma ends the field in progress.
fields_from-comma :
    (field rest : String)
    → fields_from field ("," <> rest) ≡ close_field field (fields_from "" rest)
unfolding fields_from
fields_from-comma field rest =
    ap (fields_from field) (cons-append "," "" rest ∙ ap (String.◌∷◌ ",") (nil-append rest))

close_piece :
    (t : String) (fields : List String) → str_eq t "" ≡ false → close_field t fields ≡ t ∷ fields
close_piece t fields h = ground arith

skipped :
    (field : String) (fields : List String)
    → str_eq field "" ≡ true
    → fields ≡ close_field field fields
skipped field fields h = ground arith

one_piece : (t : String) → IsPiece t → fields_from "" t ≡ t ∷ []
unfolding fields_from
one_piece t (plain, there) =
    ap (fields_from "") (sym (append-nil t))
    ∙ fields_from-append "" t "" plain
    ∙ ap (λ f. close_field f []) (nil-append t)
    ∙ close_piece t [] there

-- Types that are not empty and have no comma come back from the flag that lists them with commas
-- between them.
pub split_types-join :
    (types : List String) → All IsPiece types → split_types (join types ",") ≡ types
unfolding split_types join str_eq fields_from
split_types-join [] w = refl
split_types-join (t ∷ []) (piece, w) = one_piece t piece
split_types-join (t ∷ u ∷ ts) ((plain, there), w) =
    let rest = join (u ∷ ts) "," in
    fields_from-append "" t ("," <> rest) plain
    ∙ ap (λ f. fields_from f ("," <> rest)) (nil-append t)
    ∙ fields_from-comma t rest
    ∙ close_piece t (fields_from "" rest) there
    ∙ ap (λ l. t ∷ l) (split_types-join (u ∷ ts) w)

-- That many commas.
abbrev pub commas : ℕ → String
commas zero = ""
commas (suc n) = "," <> commas n

-- A flag's text: types, each with one comma and as many more as it says after it, and the text after
-- the last comma.
abbrev pub spelled : List (String × ℕ) → String → String
spelled [] final = final
spelled ((t, more) ∷ ts) final = t <> (commas (suc more) <> spelled ts final)

-- The types in it.
abbrev spelled_types : List (String × ℕ) → String → List String
spelled_types [] final = if str_eq final "" then [] else final ∷ []
spelled_types ((t, more) ∷ ts) final = t ∷ spelled_types ts final

fields_from-commas : (n : ℕ) (s : String) → fields_from "" (commas n <> s) ≡ fields_from "" s
unfolding str_eq
fields_from-commas zero s = ap (fields_from "") (nil-append s)
fields_from-commas (suc n) s =
    ap (fields_from "") (append_assoc "," (commas n) s)
    ∙ fields_from-comma "" (commas n <> s)
    ∙ fields_from-commas n s

fields_from-final :
    (t : String) → no_comma t ≡ true → fields_from "" t ≡ (if str_eq t "" then [] else t ∷ [])
unfolding fields_from
fields_from-final t plain =
    ap (fields_from "") (sym (append-nil t))
    ∙ fields_from-append "" t "" plain
    ∙ ap (λ f. close_field f []) (nil-append t)

fields_from-spelled :
    (ts : List (String × ℕ)) (final : String)
    → All (λ (p : String × ℕ). IsPiece p.0) ts
    → no_comma final ≡ true
    → fields_from "" (spelled ts final) ≡ spelled_types ts final
fields_from-spelled [] final w plain = fields_from-final final plain
fields_from-spelled ((t, more) ∷ ts) final ((unbroken, there), w) plain =
    let rest = spelled ts final in
    fields_from-append "" t (commas (suc more) <> rest) unbroken
    ∙ ap (λ f. fields_from f (commas (suc more) <> rest)) (nil-append t)
    ∙ ap (fields_from t) (append_assoc "," (commas more) rest)
    ∙ fields_from-comma t (commas more <> rest)
    ∙ close_piece t (fields_from "" (commas more <> rest)) there
    ∙ ap (λ l. t ∷ l) (fields_from-commas more rest ∙ fields_from-spelled ts final w plain)

-- Commas that a flag begins or ends with or repeats add no type. Of a text of any number of commas,
-- then types, each with at least one comma after it, and then a text with no comma, the types are
-- those, in their order, with the last text if it is not empty. Condition: the types are not empty
-- and have no comma.
pub split_types-spelled :
    (lead : ℕ) (ts : List (String × ℕ)) (final : String)
    → All (λ (p : String × ℕ). IsPiece p.0) ts
    → no_comma final ≡ true
    → split_types (commas lead <> spelled ts final) ≡ spelled_types ts final
unfolding split_types
split_types-spelled lead ts final w plain =
    fields_from-commas lead (spelled ts final) ∙ fields_from-spelled ts final w plain
