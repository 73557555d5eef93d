-- ===== src/Common/Strip.antt =====
-- How splitting and stripping undo joining.
use Prim.Native.Nat.{ℕ}
use mathlib.Core.Path.{◌≡◌, refl, ap, subst, ◌∙◌}
use mathlib.Core.Logic.{◌≢◌}
use mathlib.Core.Bool.{Bool, false, not}
use mathlib.Core.List.{List, [], ◌∷◌, ◌++◌, map}
use native.Mathlib.Omega.{arith}
use openipc_tftp.Common.Lists.{All, keep, is_empty}
use openipc_tftp.Common.Text.{
  Text, lstrip, rstrip, strip, split_on, join, Lacks, split_on-append, split_on-Lacks',
}

-- No character of the text passes the test.
abbrev pub Fails : (ℕ → Bool) → Text → Type 0
Fails p = All (λ c. p c ≡ false)

pub lstrip-Fails : (p : ℕ → Bool) (s : Text) → Fails p s → lstrip p s ≡ s
unfolding lstrip
lstrip-Fails p [] h = refl
lstrip-Fails p (c ∷ s) h = ground arith

pub rstrip-Fails : (p : ℕ → Bool) (s : Text) → Fails p s → rstrip p s ≡ s
unfolding rstrip
rstrip-Fails p [] h = refl
rstrip-Fails p (c ∷ s) (hc, hs) = rw (rstrip-Fails p s hs) (ground arith)

pub rstrip-append :
    (p : ℕ → Bool) (s t : Text) → rstrip p t ≢ [] → rstrip p (s ++ t) ≡ s ++ rstrip p t
rstrip-append p [] t h = refl
rstrip-append p (c ∷ s) t h = keeps (rstrip-append p s t h)
  where
    solid : (u w : Text) → w ≢ [] → is_empty (u ++ w) ≡ false
    solid [] [] n = absurd (n refl)
    solid [] (x ∷ w) n = refl
    solid (x ∷ u) w n = refl

    keeps : rstrip p (s ++ t) ≡ s ++ rstrip p t → rstrip p (c ∷ (s ++ t)) ≡ c ∷ (s ++ rstrip p t)
    keeps e = unfold rstrip in rw e (rw (solid s (rstrip p t) h) refl)

-- A text loses nothing on the right if its end does not.
pub rstrip_end : (p : ℕ → Bool) (s t : Text) → t ≢ [] → rstrip p t ≡ t → rstrip p (s ++ t) ≡ s ++ t
rstrip_end p s t n e =
    rstrip-append p s t (λ q. n (subst (λ (u : Text). u ≡ []) e q)) ∙ ap (◌++◌ s) e

abbrev pub IsSolid : ℕ → Text → Type 0
IsSolid sep w = (w ≢ []) × Lacks sep w

pub split_on-join :
    (sep : ℕ) (w : Text) (ws : List Text)
    → All (Lacks sep) (w ∷ ws)
    → split_on sep (join (sep ∷ []) (w ∷ ws)) ≡ w ∷ ws
unfolding join
split_on-join sep w [] (hw, _) = split_on-Lacks' sep w hw
split_on-join sep w (v ∷ ws) (hw, hs) =
    split_on-append sep w _ hw ∙ ap (◌∷◌ w) (split_on-join sep v ws hs)

pub keep_solid :
    (sep : ℕ) (ws : List Text) → All (IsSolid sep) ws → keep (λ w. not (is_empty w)) ws ≡ ws
keep_solid sep [] h = refl
keep_solid sep ([] ∷ ws) ((n, _), h) = absurd (n refl)
keep_solid sep ((c ∷ w) ∷ ws) (_, h) = ap (◌∷◌ (c ∷ w)) (keep_solid sep ws h)

pub map_fixed {ℓ} : {A : Type ℓ} (f : A → A) (xs : List A) → All (λ x. f x ≡ x) xs → map f xs ≡ xs
map_fixed f [] h = refl
map_fixed f (x ∷ xs) (hx, hs) = cc (map_fixed f xs hs)

join-ne-nil : (sep w : Text) (ws : List Text) → w ≢ [] → join sep (w ∷ ws) ≢ []
unfolding join
join-ne-nil sep w [] n e = n e
join-ne-nil sep [] (v ∷ ws) n e = n refl
join-ne-nil sep (c ∷ w) (v ∷ ws) n e = cc

pub rstrip-join :
    (p : ℕ → Bool) (sep w : Text) (ws : List Text)
    → All (λ v. (v ≢ []) × Fails p v) (w ∷ ws)
    → rstrip p (join sep (w ∷ ws)) ≡ join sep (w ∷ ws)
unfolding join
rstrip-join p sep w [] ((n, h), _) = rstrip-Fails p w h
rstrip-join p sep w (v ∷ ws) (_, ((n, h), hs)) =
    let tail_ne = join-ne-nil sep v ws n in
    rstrip_end p w (sep ++ join sep (v ∷ ws)) (append-ne-nil sep _ tail_ne)
      (rstrip_end p sep (join sep (v ∷ ws)) tail_ne (rstrip-join p sep v ws ((n, h), hs)))
  where
    append-ne-nil : (s t : Text) → t ≢ [] → (s ++ t) ≢ []
    append-ne-nil [] t m e = m e
    append-ne-nil (c ∷ s) t m e = cc

lstrip-join :
    (p : ℕ → Bool) (sep w : Text) (ws : List Text)
    → (w ≢ []) × Fails p w
    → lstrip p (join sep (w ∷ ws)) ≡ join sep (w ∷ ws)
unfolding join lstrip
lstrip-join p sep [] ws (n, _) = absurd (n refl)
lstrip-join p sep (c ∷ w) [] (_, h) = ground arith
lstrip-join p sep (c ∷ w) (v ∷ ws) (_, h) = ground arith

-- Stripping leaves a join alone whose parts are not empty and hold nothing to strip.
pub strip-join :
    (p : ℕ → Bool) (sep w : Text) (ws : List Text)
    → All (λ v. (v ≢ []) × Fails p v) (w ∷ ws)
    → strip p (join sep (w ∷ ws)) ≡ join sep (w ∷ ws)
unfolding strip
strip-join p sep w ws h = rw (lstrip-join p sep w ws h.0) (rstrip-join p sep w ws h)
