-- ===== src/Fat32/Creation/Names.antt =====
-- The entry of a short name, and the name that is read of it.
use bitos.Base.{
  ℕ, zero, suc, ◌^◌, ◌≤◌, ◌<◌, ◌≡◌, ◌≢◌, refl, sym, ap, ap₂, ◌∙◌, arith, true, false, ◌||◌, ltb,
  List, [], ◌∷◌, ◌++◌, length, map, take, ==_self, ==_of_ne,
}
use mathlib.Core.List.{append_assoc, append-nil}
use bitos.Fat32.ShortDirEntry.{
  ShortDirEntry, to_ascii_uppercase, before_space, dotted, get_name_uppercase, new, set_case,
  is_valid, is_empty,
}
use bitos.Fat32.Names.{split_dots, split_name_ext, padded_upper, is_dots, short_name_format}
use bitos.Fat32.DirentBytes.{AllBytes, as_bytes}
use bitos.Fat32.DirentBytes.RoundTrip.{IsSized, as_bytes-AllBytes}
use bitos.Fat32.Directory.{string_eq, is_long_name}
use bitos.Fat32.Creation.{short_entry}

-- Characters of short names: no spaces, dots or zeros.
abbrev pub IsPlain : ℕ → Type 0
IsPlain c = (c ≢ 0x20) × (c ≢ 0x2E) × (c ≢ 0) × (c < 128)

abbrev pub AllPlain : List ℕ → Type 0
AllPlain [] = Unit
AllPlain (c ∷ cs) = IsPlain c × AllPlain cs

-- A name of 1 to 8 characters and an extension of at most 3.
pub record IsShortName (base ext : List ℕ) : Type 0 where
  pub some_base : 0 < length base
  pub base_fits : length base ≤ 8
  pub ext_fits : length ext ≤ 3
  pub base_plain : AllPlain base
  pub ext_plain : AllPlain ext

-- The two, with a dot between them if there is an extension.
abbrev pub joined : (base ext : List ℕ) → List ℕ
joined base [] = base
joined base (x ∷ ext) = base ++ 0x2E ∷ x ∷ ext

split_dots-plain : (base acc : List ℕ) → AllPlain base → split_dots acc base ≡ (acc ++ base) ∷ []
unfolding split_dots
split_dots-plain [] acc p = ap (λ (l : List ℕ). l ∷ []) (sym (append-nil acc))
split_dots-plain (c ∷ base) acc ((_, dot, _, _), p) = rw (==_of_ne c 0x2E dot) (
    split_dots-plain base (acc ++ c ∷ []) p
    ∙ ap (λ (l : List ℕ). l ∷ []) (append_assoc acc (c ∷ []) base))

split_dots-dotted :
    (base ext acc : List ℕ)
    → AllPlain base
    → AllPlain ext
    → split_dots acc (base ++ 0x2E ∷ ext) ≡ (acc ++ base) ∷ ext ∷ []
unfolding split_dots
split_dots-dotted [] ext acc p q =
    ap₂ (λ (l : List ℕ) (r : List (List ℕ)). l ∷ r) (sym (append-nil acc))
      (split_dots-plain ext [] q)
split_dots-dotted (c ∷ base) ext acc ((_, dot, _, _), p) q = rw (==_of_ne c 0x2E dot) (
    split_dots-dotted base ext (acc ++ c ∷ []) p q
    ∙ ap (λ (l : List ℕ). l ∷ ext ∷ []) (append_assoc acc (c ∷ []) base))

upper-IsPlain : (c : ℕ) → IsPlain c → IsPlain (to_ascii_uppercase c)
upper-IsPlain c p = ground arith

length-padded_upper : (n : ℕ) (bs : List ℕ) → length (padded_upper n bs) ≡ n
unfolding padded_upper
length-padded_upper zero bs = refl
length-padded_upper (suc n) [] = ap suc (length-padded_upper n [])
length-padded_upper (suc n) (b ∷ bs) = ap suc (length-padded_upper n bs)

take-padded_upper : (n : ℕ) (bs : List ℕ) → take n (padded_upper n bs) ≡ padded_upper n bs
unfolding padded_upper
take-padded_upper zero bs = refl
take-padded_upper (suc n) [] = ap (◌∷◌ 0x20) (take-padded_upper n [])
take-padded_upper (suc n) (b ∷ bs) = ap (◌∷◌ (to_ascii_uppercase b)) (take-padded_upper n bs)

before_space-padded_upper :
    (n : ℕ) (bs : List ℕ)
    → length bs ≤ n
    → AllPlain bs
    → before_space (padded_upper n bs) ≡ map to_ascii_uppercase bs
unfolding before_space padded_upper
before_space-padded_upper zero [] h p = refl
before_space-padded_upper zero (b ∷ bs) h p = absurd (omega arith)
before_space-padded_upper (suc n) [] h p = refl
before_space-padded_upper (suc n) (b ∷ bs) h (p, ps) =
    rw (==_of_ne (to_ascii_uppercase b) 0x20 (upper-IsPlain b p).0)
      (ap (◌∷◌ (to_ascii_uppercase b)) (before_space-padded_upper n bs (omega arith) ps))

-- The extension as it is read, with its dot.
abbrev suffix : List ℕ → List ℕ
suffix [] = []
suffix (x ∷ ext) = 0x2E ∷ map to_ascii_uppercase (x ∷ ext)

dotted-padded_upper :
    (ext : List ℕ) → length ext ≤ 3 → AllPlain ext → dotted (padded_upper 3 ext) ≡ suffix ext
unfolding dotted padded_upper before_space
dotted-padded_upper [] h p = refl
dotted-padded_upper (x ∷ ext) h (p, ps) =
    rw (==_of_ne (to_ascii_uppercase x) 0x20 (upper-IsPlain x p).0) (
      ap (λ (l : List ℕ). 0x2E ∷ to_ascii_uppercase x ∷ l)
        (before_space-padded_upper 2 ext (omega arith) ps))

map-append :
    (xs ys : List ℕ)
    → map to_ascii_uppercase (xs ++ ys) ≡ map to_ascii_uppercase xs ++ map to_ascii_uppercase ys
map-append [] ys = refl
map-append (x ∷ xs) ys = ap (◌∷◌ (to_ascii_uppercase x)) (map-append xs ys)

upper_joined :
    (base ext : List ℕ)
    → map to_ascii_uppercase (joined base ext) ≡ map to_ascii_uppercase base ++ suffix ext
upper_joined base [] = sym (append-nil (map to_ascii_uppercase base))
upper_joined base (x ∷ ext) = map-append base (0x2E ∷ x ∷ ext)

pub string_eq_self : (xs : List ℕ) → string_eq xs xs ≡ true
string_eq_self [] = refl
string_eq_self (x ∷ xs) = rw (==_self x, string_eq_self xs) refl

not_dots : (c : ℕ) (cs : List ℕ) → c ≢ 0x2E → is_dots (c ∷ cs) ≡ false
unfolding is_dots
not_dots c [] ne = ==_of_ne c 0x2E ne
not_dots c (d ∷ []) ne = rw (==_of_ne c 0x2E ne) refl
not_dots c (d ∷ e ∷ cs) ne = refl

padded_bytes : (n : ℕ) (bs : List ℕ) → AllPlain bs → AllBytes (padded_upper n bs)
unfolding padded_upper
padded_bytes zero bs p = tt
padded_bytes (suc n) [] p = (omega arith, padded_bytes n [] p)
padded_bytes (suc n) (b ∷ bs) (p, ps) =
    (let (_, _, _, small) = upper-IsPlain b p in omega (arith, small), padded_bytes n bs ps)

module _ {base ext : List ℕ} (s : IsShortName base ext) where
  joined_not_dots : is_dots (joined base ext) ≡ false
  joined_not_dots = start base ext s.some_base s.base_plain
    where
      start :
          (base ext : List ℕ) → 0 < length base → AllPlain base → is_dots (joined base ext) ≡ false
      start [] ext h p = absurd (omega arith)
      start (c ∷ base) [] h ((_, dot, _, _), p) = not_dots c base dot
      start (c ∷ base) (x ∷ ext) h ((_, dot, _, _), p) = not_dots c (base ++ 0x2E ∷ x ∷ ext) dot

  parts : split_name_ext (joined base ext) ≡ (base, ext)
  unfolding split_name_ext
  parts = split base ext s.base_plain s.ext_plain
    where
      split :
          (base ext : List ℕ)
          → AllPlain base
          → AllPlain ext
          → split_name_ext (joined base ext) ≡ (base, ext)
      split base [] p q = rw (split_name_ext, split_dots-plain base [] p) refl
      split base (x ∷ ext) p q = rw (split_name_ext, split_dots-dotted base (x ∷ ext) [] p q) refl

  pub joined_not_long : is_long_name (joined base ext) ≡ false
  unfolding is_long_name
  joined_not_long = split base ext s.base_plain s.ext_plain s.base_fits s.ext_fits
    where
      split :
          (base ext : List ℕ)
          → AllPlain base
          → AllPlain ext
          → length base ≤ 8
          → length ext ≤ 3
          → is_long_name (joined base ext) ≡ false
      split base [] p q h k = rw (is_long_name, split_dots-plain base [] p) (ground arith)
      split base (x ∷ ext) p q h k =
          rw (is_long_name, split_dots-dotted base (x ∷ ext) [] p q) (ground arith)

  pub joined_parts_short :
      (ltb 8 (length (split_name_ext (joined base ext)).0)
        || ltb 3 (length (split_name_ext (joined base ext)).1))
      ≡ false
  joined_parts_short = rw parts (ground (arith, s.base_fits, s.ext_fits))

  formatted : short_name_format (joined base ext) ≡ (padded_upper 8 base, padded_upper 3 ext)
  unfolding short_name_format
  formatted = rw (joined_not_dots, parts) refl

  -- The entry of a short name has that name, in upper case.
  pub get_name_uppercase-short_entry :
      (attribute case : ℕ)
      → get_name_uppercase (set_case (short_entry (joined base ext) attribute) case)
        ≡ map to_ascii_uppercase (joined base ext)
  unfolding get_name_uppercase set_case short_entry new
  get_name_uppercase-short_entry attribute case =
      rw (formatted, take-padded_upper 8 base, take-padded_upper 3 ext)
        (ap₂ ◌++◌ (before_space-padded_upper 8 base s.base_fits s.base_plain)
            (dotted-padded_upper ext s.ext_fits s.ext_plain)
          ∙ sym (upper_joined base ext))

  first :
      (e : ShortDirEntry)
      → e.name ≡ padded_upper 8 base
      → (is_empty e ≡ false) × (is_valid e ≡ true)
  unfolding is_empty is_valid padded_upper
  first e named = start base s.some_base s.base_plain named
    where
      start :
          (base : List ℕ)
          → 0 < length base
          → AllPlain base
          → e.name ≡ padded_upper 8 base
          → (is_empty e ≡ false) × (is_valid e ≡ true)
      start [] h p named = absurd (omega arith)
      start (c ∷ base) h (p, ps) named = rw named (ground (arith, upper-IsPlain c p))

  pub short_entry-valid :
      (attribute case : ℕ)
      → (is_empty (set_case (short_entry (joined base ext) attribute) case) ≡ false)
        × (is_valid (set_case (short_entry (joined base ext) attribute) case) ≡ true)
  unfolding set_case short_entry new
  short_entry-valid attribute case = first _ (rw formatted (take-padded_upper 8 base))

  pub short_entry-IsSized :
      (attribute case : ℕ)
      → attribute < 2 ^ 8
      → case < 2 ^ 8
      → IsSized (set_case (short_entry (joined base ext) attribute) case)
  unfolding set_case short_entry new
  short_entry-IsSized attribute case h k = record {
    name = rw formatted (ap length (take-padded_upper 8 base) ∙ length-padded_upper 8 base);
    extension = rw formatted (ap length (take-padded_upper 3 ext) ∙ length-padded_upper 3 ext);
    attribute = h;
    winnt_reserved = k;
    creation_tenths = omega arith;
    creation_time = omega arith;
    creation_date = omega arith;
    last_acc_date = omega arith;
    cluster_high = omega arith;
    modification_time = omega arith;
    modification_date = omega arith;
    cluster_low = omega arith;
    size = omega arith;
  }

  pub short_entry-AllBytes :
      (attribute case : ℕ)
      → AllBytes (as_bytes (set_case (short_entry (joined base ext) attribute) case))
  unfolding set_case short_entry new
  short_entry-AllBytes attribute case =
      as_bytes-AllBytes (set_case (short_entry (joined base ext) attribute) case)
        (rw formatted (rw (take-padded_upper 8 base) (padded_bytes 8 base s.base_plain)))
        (rw formatted (rw (take-padded_upper 3 ext) (padded_bytes 3 ext s.ext_plain)))
