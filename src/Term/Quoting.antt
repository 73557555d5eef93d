-- ===== src/Term/Quoting.antt =====
-- Where a double-quoted word of the texts that are printed ends, and the size of the progress bar.
use openipc_tftp.Common.{
  ℕ, ◌+◌, ◌-◌, ◌≡◌, [], ◌∷◌, ◌++◌, Option, none, some, arith, ◌==◌, if◌then◌else◌, length,
  replicate, length-append, length-replicate, min,
}
use openipc_tftp.Common.Text.{Text}
use openipc_tftp.Term.{progress_bar}

-- What stands behind the quote that ends a word in double quotes, read from behind the opening one:
-- a backslash hides the character after it from the end of the word. Only where the word ends is
-- read here, and nothing of what a shell makes of the characters in it.
pub quote_end : Text → Option Text
quote_end [] = none
quote_end (c ∷ []) = if c == b'"' then some [] else none
quote_end (c ∷ d ∷ s) =
    let hidden = quote_end s in
    let plain = quote_end (d ∷ s) in
    if c == b'"' then some (d ∷ s) else if c == b'\\' then hidden else plain

-- The text of a progress bar is two characters longer than the total, whatever the progress.
length-progress_bar : (x total : ℕ) → length (progress_bar x total) ≡ total + 2
unfolding progress_bar
length-progress_bar x total = omega (
  arith,
  length-append {A = ℕ} (replicate (min x total) b'#')
      (replicate (total - min x total) b' ' ++ b']' ∷ []),
  length-append {A = ℕ} (replicate (total - min x total) b' ') (b']' ∷ []),
  length-replicate {A = ℕ} (min x total) b'#',
  length-replicate {A = ℕ} (total - min x total) b' ',
)
