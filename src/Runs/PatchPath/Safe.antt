-- ===== src/Runs/PatchPath/Safe.antt =====
-- The results of `normalizePatchPath`, internal/agentruns/store.go.
use Prim.Native.Char.{Char, code}
use mathlib.Core.Bool.{false≢true}
use mathlib.Core.List.{reverse_aux}
use text.Mathlib.TextLemmas.{nil-append, cons-append}
use ia_cstudio.Prelude.{
  ◌≡◌, ◌≢◌, refl, sym, ap, ◌∙◌, Bool, false, String, ◌<>◌, List, [], ◌∷◌, arith, eqb, if◌then◌else◌,
  any, ◌==◌, eq_iff, ok, All, Bool-cases, inl, inr,
}
use ia_cstudio.Text.Trim.{trim_space}
use ia_cstudio.Runs.PatchPath.{
  split_cons, split_slash, join_slash, clean_part, clean_parts, clean, is_dot_dot,
  normalize_patch_path, is_abs,
}

abbrev pub NoSlash : String → Type 0
NoSlash String.[] = Unit
NoSlash (String.◌∷◌ c s) = (eqb (code c) b'/' ≡ false) × NoSlash s

-- A part that names an entry of the directory it is joined to.
abbrev pub IsEntry : String → Type 0
IsEntry part = (part ≢ "") × (part ≢ ".") × (part ≢ "..")

abbrev IsPart : String → Type 0
IsPart part = IsEntry part × NoSlash part

split_cons-NoSlash :
    (c : Char) (parts : List String) → All NoSlash parts → All NoSlash (split_cons c parts)
unfolding split_cons
split_cons-NoSlash c [] h = tt
split_cons-NoSlash c (part ∷ parts) h = elim (Bool-cases (eqb (code c) b'/')) [
  | inl slash ↦ rw slash (tt, h)
  | inr other ↦ rw other ((other, h.0), h.1)
]

split_slash-NoSlash : (s : String) → All NoSlash (split_slash s)
unfolding split_slash
split_slash-NoSlash String.[] = (tt, tt)
split_slash-NoSlash (String.◌∷◌ c s) = split_cons-NoSlash c (split_slash s) (split_slash-NoSlash s)

split_slash-cons :
    (s : String) → (part : String) × (parts : List String) × (split_slash s ≡ part ∷ parts)
unfolding split_slash split_cons
split_slash-cons String.[] = ("", [], refl)
split_slash-cons (String.◌∷◌ c s) =
    let (part, parts, e) = split_slash-cons s in
    elim (Bool-cases (eqb (code c) b'/')) [
      | inl slash ↦ ("", part ∷ parts, rw e (rw slash refl))
      | inr other ↦ (String.◌∷◌ c part, parts, rw e (rw other refl))
    ]

-- a part in front of a slash
split_slash-append :
    (part s : String) → NoSlash part → split_slash (part <> String.◌∷◌ "/" s) ≡ part ∷ split_slash s
unfolding split_slash split_cons
split_slash-append String.[] s h =
    let (first, rest, e) = split_slash-cons s in rw nil-append (rw e refl)
split_slash-append (String.◌∷◌ c part) s (other, h) =
    rw cons-append (rw (split_slash-append part s h) (rw other refl))

split_slash_single : (part : String) → NoSlash part → split_slash part ≡ part ∷ []
unfolding split_slash split_cons
split_slash_single String.[] h = refl
split_slash_single (String.◌∷◌ c part) (other, h) = rw (split_slash_single part h) (rw other refl)

All-NoSlash : (parts : List String) → All IsPart parts → All NoSlash parts
All-NoSlash [] h = tt
All-NoSlash (part ∷ parts) h = (h.0.1, All-NoSlash parts h.1)

-- Splitting undoes joining.
pub split_slash-join_slash :
    (part : String) (parts : List String)
    → All NoSlash (part ∷ parts)
    → split_slash (join_slash (part ∷ parts)) ≡ part ∷ parts
unfolding join_slash
split_slash-join_slash part [] (h, _) = split_slash_single part h
split_slash-join_slash part (next ∷ parts) (h, hs) =
    split_slash-append part (join_slash (next ∷ parts)) h
    ∙ ap (λ l. part ∷ l) (split_slash-join_slash next parts hs)

clean_part-IsPart :
    (rooted : Bool) (stack : List String) (part : String)
    → All IsPart stack
    → NoSlash part
    → is_dot_dot part ≡ false
    → All IsPart (clean_part rooted stack part)
unfolding clean_part
clean_part-IsPart rooted stack part h k d =
    ground (arith, eq_iff part "", eq_iff part ".", eq_iff part "..")

All-reverse_aux :
    (xs ys : List String) → All IsPart xs → All IsPart ys → All IsPart (reverse_aux xs ys)
All-reverse_aux [] ys h k = k
All-reverse_aux (x ∷ xs) ys (p, h) k = All-reverse_aux xs (x ∷ ys) h (p, k)

clean_parts-IsPart :
    (rooted : Bool) (stack parts : List String)
    → All IsPart stack
    → All NoSlash parts
    → any is_dot_dot parts ≡ false
    → All IsPart (clean_parts rooted stack parts)
unfolding clean_parts
clean_parts-IsPart rooted stack [] h k d = All-reverse_aux stack [] h tt
clean_parts-IsPart rooted stack (part ∷ parts) h (k, ks) d =
    clean_parts-IsPart rooted (clean_part rooted stack part) parts
      (clean_part-IsPart rooted stack part h k (ground arith)) ks (ground arith)

join_parts :
    (parts : List String)
    → All IsPart parts
    → join_slash parts ≢ ""
    → All IsEntry (split_slash (join_slash parts))
unfolding join_slash
join_parts [] h ne = absurd (ne refl)
join_parts (part ∷ parts) h ne =
    rw (split_slash-join_slash part parts (All-NoSlash (part ∷ parts) h)) (entries (part ∷ parts) h)
  where
    entries : (l : List String) → All IsPart l → All IsEntry l
    entries [] h = tt
    entries (p ∷ l) ((e, n), h) = (e, entries l h)

clean_relative :
    (path : String)
    → is_abs path ≡ false
    → clean path ≡ (
        let body = join_slash (clean_parts false [] (split_slash path)) in
        if body == "" then "." else body)
unfolding clean
clean_relative path relative = rw relative refl

-- What is left of a path that is accepted: the cleaned path, which is not ".".
accepted :
    (raw path : String)
    → normalize_patch_path raw ≡ ok path
    → (path ≡ clean (trim_space raw))
      × (is_abs (trim_space raw) ≡ false)
      × (any is_dot_dot (split_slash (trim_space raw)) ≡ false)
      × ((clean (trim_space raw) == ".") ≡ false)
unfolding normalize_patch_path
accepted raw path e = ground arith

-- A path that `normalize_patch_path` accepts is relative, and none of its parts between slashes is
-- empty, "." or "..".
pub normalize_patch_path-IsEntry :
    (raw path : String) → normalize_patch_path raw ≡ ok path → All IsEntry (split_slash path)
normalize_patch_path-IsEntry raw path e =
    let given = trim_space raw in
    let parts = clean_parts false [] (split_slash given) in
    let (is, relative, inside, named) = accepted raw path e in
    let all =
      clean_parts-IsPart false [] (split_slash given) tt (split_slash-NoSlash given) inside in
    elim (Bool-cases (join_slash parts == "")) [
      | inl blank ↦
          let dot : clean given ≡ "." = rw (clean_relative given relative) (rw blank refl) in
          absurd (false≢true (sym named ∙ rw dot refl))
      | inr body ↦
          let same : path ≡ join_slash parts =
            is ∙ rw (clean_relative given relative) (rw body refl) in
          rw same (join_parts parts all (λ z. false≢true (sym body ∙ (eq_iff _ _).1 z)))
    ]
