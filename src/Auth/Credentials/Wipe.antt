-- ===== src/Auth/Credentials/Wipe.antt =====
-- What `Credentials::clear` leaves behind.
use bintrade.Prelude.{
  ℕ, ◌≡◌, refl, true, ◌∷◌, [], List, none, some, Text, length, drop, replicate, arith, All, zero,
  suc, append-nil, ap, sym, subst,
}
use bintrade.Auth.Credentials.{
  buffer_of, view, wipe, clear_keys, Credentials, make_credentials, has_credentials, api_key,
  api_secret, clear,
}

-- Every byte of both buffers is 0.
abbrev pub IsZeroed : Credentials → Type 0
IsZeroed none = Unit
IsZeroed (some keys) = All (λ x. x ≡ 0) keys.key.memory × All (λ x. x ≡ 0) keys.secret.memory

drop-length : (xs : List ℕ) → drop (length xs) xs ≡ []
drop-length [] = refl
drop-length (x ∷ xs) = drop-length xs

All-replicate : (n : ℕ) → All {A = ℕ} (λ x. x ≡ 0) (replicate n 0)
All-replicate zero = tt
All-replicate (suc n) = (refl, All-replicate n)

-- A text that is not empty leaves as many zero bytes.
wipe-eq :
    (x : ℕ) (xs : List ℕ)
    → wipe (buffer_of (x ∷ xs)) ≡ record { memory = replicate (suc (length xs)) 0; size = 0 }
unfolding wipe
wipe-eq x xs = grind (arith, drop-length xs, append-nil {A = ℕ} (replicate (suc (length xs)) 0))

wipe-IsZeroed :
    (t : Text)
    → All {A = ℕ} (λ x. x ≡ 0) (wipe (buffer_of t)).memory × (view (wipe (buffer_of t)) ≡ [])
unfolding wipe view
wipe-IsZeroed [] = (tt, refl)
wipe-IsZeroed (x ∷ xs) = (
  subst (λ b. All {A = ℕ} (λ y. y ≡ 0) b.memory) (sym (wipe-eq x xs))
      (All-replicate (suc (length xs))),
  ap view (wipe-eq x xs),
)

-- Once `clear` has run on the credentials of a key and a secret, every byte of the two buffers is 0,
-- the key and the secret read as empty texts, and `has_credentials` still holds.
pub clear-make_credentials :
    (key secret : Text)
    → IsZeroed (clear (make_credentials key secret))
      × (api_key (clear (make_credentials key secret)) ≡ [])
      × (api_secret (clear (make_credentials key secret)) ≡ [])
      × (has_credentials (clear (make_credentials key secret)) ≡ true)
unfolding clear clear_keys
clear-make_credentials key secret =
    let (k, k') = wipe-IsZeroed key in let (s, s') = wipe-IsZeroed secret in ((k, s), k', s', refl)
