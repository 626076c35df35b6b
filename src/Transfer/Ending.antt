-- ===== src/Transfer/Ending.antt =====
-- The blocks of a file, and the end of a job.
use mathlib.Core.List.{append_assoc}
use qxmpp.Common.{
  ℕ, zero, suc, ◌-◌, ◌*◌, ◌<◌, ◌≤◌, ◌≡◌, ◌⊎◌, inl, inr, refl, Bool, true, false, not, ◌&&◌, [], ◌∷◌,
  ◌++◌, some, Bytes, is_empty, text_eq, text_eq_refl, ◌==◌, length, take, drop, if◌then◌else◌,
  arith,
}
use qxmpp.Transfer.Job.{finished, no_error, is_finished, Io, Job, terminate, check_data, close_own}
use qxmpp.Transfer.Steps.{and_false, IsFile, receiving}

size_fits : (f k : ℕ) → (f ≡ 0) ⊎ (f ≡ k) → (not (f == 0) && not (k == f)) ≡ false
size_fits f k w = ground arith

hash_fits : (s m : Bytes) → (s ≡ []) ⊎ (m ≡ s) → (not (is_empty s) && not (text_eq m s)) ≡ false
hash_fits s m (inl absent) = rw absent
hash_fits s m (inr same) = rw (same, text_eq_refl s, and_false (not (is_empty s)))

pub take_none : (n : ℕ) (xs : Bytes) → 0 < n → take n xs ≡ [] → xs ≡ []
take_none zero xs pos e = absurd (omega arith)
take_none (suc n) [] pos e = refl
take_none (suc n) (x ∷ xs) pos e = absurd cc

pub length-drop : (n : ℕ) (xs : Bytes) → length (drop n xs) ≡ length xs - n
length-drop zero xs = omega arith
length-drop (suc n) [] = omega arith
length-drop (suc n) (x ∷ xs) = omega (arith, length-drop n xs)

-- How many blocks of `b` bytes are left.
pub some_left : (m b l : ℕ) → 0 < l → l ≤ m * b → 0 < m
some_left zero b l pos h = absurd (omega arith)
some_left (suc m) b l pos h = omega arith

pub next_left : (m b l : ℕ) → l ≤ m * b → l - b ≤ (m - 1) * b
next_left zero b l h = omega arith
next_left (suc m) b l h = let less : suc m - 1 ≡ m = omega arith in rw less (omega arith)

pub Bytes-cases : (s : Bytes) → (s ≡ []) ⊎ ((c : ℕ) × (cs : Bytes) × (s ≡ c ∷ cs))
Bytes-cases [] = inl refl
Bytes-cases (c ∷ cs) = inr (c, cs, refl)

module _ {D : Type 0} (io : Io D) where
  -- A job that terminates with no error, whatever its device is.
  pub terminated_state :
      (j : Job D) → is_finished j.state ≡ false → (terminate io no_error j).state ≡ finished
  unfolding terminate
  terminated_state j live = rw live

  pub terminated_error :
      (j : Job D) → is_finished j.state ≡ false → (terminate io no_error j).error ≡ no_error
  unfolding terminate
  terminated_error j live = rw live

  pub terminated_device :
      (j : Job D)
      → is_finished j.state ≡ false
      → (terminate io no_error j).device ≡ close_own io j.device_is_own j.device
  unfolding terminate
  terminated_device j live = rw live

  pub closed_content :
      (content : D → Bytes) (file : IsFile D io content) (own : Bool) (d : D)
      → (e : D) × (close_own io own (some d) ≡ some e) × (content e ≡ content d)
  closed_content content file true d = (io.close d, refl, file.close_content d)
  closed_content content file false d = (d, refl, refl)

  -- The file's size and hash are those of the data, where they are given.
  abbrev pub IsWhole : Job D → ℕ → Bytes → Type 0
  IsWhole j k h =
      ((j.file_size ≡ 0) ⊎ (j.file_size ≡ k)) × ((j.file_hash ≡ []) ⊎ (io.md5 h ≡ j.file_hash))

  pub check_data-whole :
      (j : Job D) (d : D) (n k : ℕ) (h : Bytes)
      → IsWhole j k h
      → check_data io (receiving j d n k h) ≡ terminate io no_error (receiving j d n k h)
  unfolding check_data
  check_data-whole j d n k h w =
      rw (size_fits j.file_size k w.0, hash_fits j.file_hash (io.md5 h) w.1)

  -- Feeding the hash block by block.
  pub fed :
      (s h x rest : Bytes)
      → (s ≡ []) ⊎ (io.md5 (h ++ (x ++ rest)) ≡ s)
      → (s ≡ []) ⊎ (io.md5 ((if is_empty s then h else h ++ x) ++ rest) ≡ s)
  fed [] h x rest w = inl refl
  fed (c ∷ cs) h x rest (inl empty) = absurd cc
  fed (c ∷ cs) h x rest (inr w) = inr (rw (append_assoc h x rest) w)
