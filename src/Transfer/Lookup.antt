-- ===== src/Transfer/Lookup.antt =====
-- A job in the list of a manager: finding it, and putting another in its place.
use qxmpp.Common.{◌≡◌, refl, Bool, true, false, [], ◌∷◌, ◌++◌, List, some, All}
use qxmpp.Transfer.Job.{Sent, Job}
use qxmpp.Transfer.Manager.{find_job, replace_job}
use qxmpp.Transfer.Channel.{last_sent}

module _ {D : Type 0} (p : Job D → Bool) (after : List (Job D)) where
  -- The first job that fits stands behind jobs that do not.
  pub find_job-behind :
      (before : List (Job D)) (j : Job D)
      → All (λ k. p k ≡ false) before
      → p j ≡ true
      → find_job p (before ++ j ∷ after) ≡ some j
  unfolding find_job
  find_job-behind [] j none_fits fits = rw fits
  find_job-behind (b ∷ bs) j none_fits fits =
      rw (none_fits.0) (find_job-behind bs j none_fits.1 fits)

  pub replace_job-behind :
      (before : List (Job D)) (j k : Job D)
      → All (λ k. p k ≡ false) before
      → p j ≡ true
      → replace_job p k (before ++ j ∷ after) ≡ before ++ k ∷ after
  unfolding replace_job
  replace_job-behind [] j k none_fits fits = rw fits
  replace_job-behind (b ∷ bs) j k none_fits fits =
      rw (none_fits.0, replace_job-behind bs j k none_fits.1 fits)

pub last_sent-append : (xs : List Sent) (s : Sent) → last_sent (xs ++ s ∷ []) ≡ some s
unfolding last_sent
last_sent-append [] s = refl
last_sent-append (x ∷ []) s = refl
last_sent-append (x ∷ y ∷ ys) s = last_sent-append (y ∷ ys) s
