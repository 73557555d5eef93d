-- ===== src/Files/Confined.antt =====
-- Names from the network stay below the root.
use openipc_tftp.Common.{
  Bool-cases, Error, err, ◌≡◌, ◌≢◌, refl, sym, subst, ◌∙◌, Bool, true, false, not, ◌||◌, [], ◌∷◌,
  ◌++◌, Option, none, some, ok, value_error, ◌>>◌, guard, if◌then◌else◌, ◌⊎◌, not-eq-true,
  guard-passed, inl, inr, &&-eq-true, ||-eq-true, any_of,
}
use openipc_tftp.Common.Text.{Text, codes, text_eq, has_char, eq_of_text_eq}
use openipc_tftp.Jobs.{FilePath, path_eq}
use openipc_tftp.Files.{
  Files, resolve, is_below, relative, resolve_static_path, resolve_disk_upload_path,
}

-- A path strictly below another, and one that may be the other.
abbrev pub Below : FilePath → FilePath → Type 0
Below root path = (rest : FilePath) × (path ≡ root ++ rest) × (rest ≢ [])

Below-of : (root path : FilePath) → is_below root path ≡ true → Below root path
unfolding is_below
Below-of [] [] h = absurd (cc)
Below-of [] (w ∷ path) h = (w ∷ path, refl, λ e. cc)
Below-of (v ∷ root) [] h = absurd (cc)
Below-of (v ∷ root) (w ∷ path) h =
    let (same, below) = &&-eq-true (text_eq v w) (is_below root path) h in
    let (rest, e, n) = Below-of root path below in (rest, cc (eq_of_text_eq v w same, e), n)

pub path_eq_sound : (p q : FilePath) → path_eq p q ≡ true → p ≡ q
unfolding path_eq
path_eq_sound [] [] h = refl
path_eq_sound [] (w ∷ q) h = absurd (cc)
path_eq_sound (v ∷ p) [] h = absurd (cc)
path_eq_sound (v ∷ p) (w ∷ q) h =
    let (same, rest) = &&-eq-true (text_eq v w) (path_eq p q) h in
    cc (eq_of_text_eq v w same, path_eq_sound p q rest)

static_of :
    (candidate root : FilePath) {p : FilePath} (same below : Bool)
    → is_below root candidate ≡ below
    → (if same then none else if not below then none else some candidate) ≡ some p
    → Below root p
static_of candidate root true below e h = absurd (cc)
static_of candidate root false false e h = absurd (cc)
static_of candidate root false true e h =
    subst (Below root) (some-injective h) (Below-of root candidate e)
  where
    some-injective : {a b : FilePath} → some a ≡ some b → a ≡ b
    some-injective q = cc

-- Whatever the request's path and the links of the file system, a static path that is resolved
-- lies strictly below the resolved root.
pub static-Below :
    (fs : Files) (root : FilePath) (path : Text) {p : FilePath}
    → resolve_static_path fs root path ≡ ok (some p)
    → Below (resolve fs root) p
unfolding resolve_static_path
static-Below fs root path {p} h =
    let (_, resolved) = guard-passed (not (has_char 0 path)) value_error (ok _) h in
    static_of (resolve fs (root ++ relative path)) (resolve fs root)
      (path_eq (resolve fs (root ++ relative path)) (resolve fs root))
      (is_below (resolve fs root) (resolve fs (root ++ relative path))) refl (answer resolved)
  where
    answer : {a b : Option FilePath} → ok a ≡ ok b → a ≡ b
    answer q = cc

-- A path is refused with an error only for a NUL in it.
pub static_refused :
    (fs : Files) (root : FilePath) (path : Text) {x : Error}
    → resolve_static_path fs root path ≡ err x
    → (x ≡ value_error) × (has_char 0 path ≡ true)
unfolding resolve_static_path
static_refused fs root path {x} h = elim (Bool-cases (has_char 0 path)) [
  | inl nul ↦
      let raised : resolve_static_path fs root path ≡ err value_error = rw nul refl in
      (cc (h, raised), nul)
  | inr plain ↦ let q = rw plain at h in absurd (cc q)
]

disk_upload_of :
    (root candidate : FilePath) {p : FilePath}
    → candidate ≡ p
    → (is_below root candidate || path_eq candidate root) ≡ true
    → Below root p ⊎ (p ≡ root)
disk_upload_of root candidate e h =
    elim (||-eq-true (is_below root candidate) (path_eq candidate root) h) [
      | inl below ↦ inl (subst (Below root) e (Below-of root candidate below))
      | inr same ↦ inr (sym e ∙ path_eq_sound candidate root same)
    ]

-- Whatever the name and the links, an upload whose path is resolved goes below the resolved upload
-- directory or to that very path, and its name has no segment `..`.
pub disk_upload-Below :
    (fs : Files) (root : FilePath) (filename : Text) {p : FilePath}
    → resolve_disk_upload_path fs root filename ≡ ok p
    → (Below (resolve fs root) p ⊎ (p ≡ resolve fs root))
      × (any_of (λ w. text_eq w (codes "..")) (relative filename) ≡ false)
unfolding resolve_disk_upload_path
disk_upload-Below fs root filename {p} h =
    let dots = any_of (λ w. text_eq w (codes "..")) (relative filename) in
    let candidate = resolve fs (root ++ relative filename) in
    let inner =
      guard (is_below (resolve fs root) candidate || path_eq candidate (resolve fs root))
        value_error
      >> ok candidate in
    let (plain, named) =
      guard-passed (not dots) value_error (guard (not (has_char 0 filename)) value_error >> inner)
        h in
    let (_, rest) = guard-passed (not (has_char 0 filename)) value_error inner named in
    let (inside, result) =
      guard-passed (is_below (resolve fs root) candidate || path_eq candidate (resolve fs root))
        value_error (ok candidate) rest in
    (
      disk_upload_of (resolve fs root) candidate (ok-injective result) inside,
      not-eq-true dots plain,
    )
  where
    ok-injective : {a b : FilePath} → ok a ≡ ok b → a ≡ b
    ok-injective q = cc
