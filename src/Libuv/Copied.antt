-- ===== src/Libuv/Copied.antt =====
-- libuv/fscat.cpp: what the chain of callbacks puts out.
use cpp_custom.Prelude.{
  Bytes, [], ◌∷◌, ◌++◌, some, ℕ, zero, suc, ◌≤◌, ◌<◌, ◌≡◌, refl, sym, ap, ◌∙◌, arith, length,
  append-nil, append_assoc, take, drop, length-drop, replicate, subst,
}
use cpp_custom.Libuv.Cat.{Copy, Loop, Stop, run_reads, on_open}

-- A read that can gives at least one byte, at most as many as the buffer takes and the file has, and 0 at
-- the end of the file; a write takes all bytes.
pub record Works (L : Loop) : Type 0 where
  pub read :
      (len c : ℕ) (cs : Bytes)
      → (n : ℕ) × (L.reads (suc len) (c ∷ cs) ≡ some (suc n)) × (n ≤ len) × (n ≤ length cs)
  pub at_end : (len : ℕ) → L.reads len [] ≡ some 0
  pub write : (bs : Bytes) → L.writes bs ≡ some (length bs)

take-drop : (n : ℕ) (xs : Bytes) → take n xs ++ drop n xs ≡ xs
take-drop zero xs = refl
take-drop (suc n) [] = refl
take-drop (suc n) (x ∷ xs) = ap (λ t. x ∷ t) (take-drop n xs)

take-front : (xs ys : Bytes) → take (length xs) (xs ++ ys) ≡ xs
take-front [] ys = refl
take-front (x ∷ xs) ys = ap (λ t. x ∷ t) (take-front xs ys)

length-take_le : (n : ℕ) (xs : Bytes) → n ≤ length xs → length (take n xs) ≡ n
length-take_le zero xs le = refl
length-take_le (suc n) [] le = absurd (omega arith)
length-take_le (suc n) (x ∷ xs) le = ap suc (length-take_le n xs (omega arith))

take-all : (xs : Bytes) → take (length xs) xs ≡ xs
take-all [] = refl
take-all (x ∷ xs) = ap (λ t. x ∷ t) (take-all xs)

abbrev copy_of : Bytes → ℕ → Bytes → Bytes → Copy
copy_of rest len buffer output = record { rest = rest; len = len; buffer = buffer; output = output }

-- The rest of the file goes to the output, and the file is closed.
abbrev Copies : Bytes → Stop × Copy → Type 0
Copies text r = (r.0 ≡ Stop.closed) × (r.1.output ≡ text)

module _ (L : Loop) (works : Works L) where
  run_reads-Copies :
      (f m : ℕ) (rest buffer output : Bytes)
      → length rest < f
      → Copies (output ++ rest) (run_reads L f (copy_of rest (suc m) buffer output))
  unfolding run_reads
  run_reads-Copies zero m rest buffer output lt = absurd (omega arith)
  run_reads-Copies (suc f) m [] buffer output lt =
      rw (works.at_end (suc m)) (refl, sym (append-nil output))
  run_reads-Copies (suc f) m (c ∷ cs) buffer output lt =
      let (n, reads, fits, within) = works.read m c cs in
      let chunk = c ∷ take n cs in
      let filled = chunk ++ drop (suc n) buffer in
      let long : length chunk ≡ suc n = ap suc (length-take_le n cs within) in
      let given : take (suc n) filled ≡ chunk =
        subst (λ m. take m filled ≡ chunk) long (take-front chunk (drop (suc n) buffer)) in
      let put = output ++ take (length chunk) (take (suc n) filled) in
      let writes : L.writes (take (suc n) filled) ≡ some (length chunk) =
        ap L.writes given ∙ works.write chunk in
      let again = run_reads-Copies f n (drop n cs) filled put (omega (arith, length-drop n cs)) in
      let text : put ++ drop n cs ≡ output ++ c ∷ cs =
        ap (λ t. (output ++ take (length chunk) t) ++ drop n cs) given
        ∙ append_assoc output (take (length chunk) chunk) (drop n cs)
        ∙ ap (λ t. output ++ (t ++ drop n cs)) (take-all chunk)
        ∙ ap (λ t. output ++ c ∷ t) (take-drop n cs) in
      rw (reads, writes) (again.0, again.1 ∙ text)

  -- Where every read gives what it can, at least a byte, and every write takes all bytes, the chain
  -- of callbacks that opening a file starts ends with the file closed, and the output is the file.
  pub on_open-copies :
      (file : Bytes)
      → ((on_open L (some file)).0 ≡ Stop.closed) × ((on_open L (some file)).1.output ≡ file)
  unfolding on_open
  on_open-copies file =
      run_reads-Copies (suc (length file)) 1023 file (replicate 1024 0) [] (omega arith)
