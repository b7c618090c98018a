-- ===== src/Crypto/Accepted.antt =====
-- include/tarantool_connector/detail/tntpp_crypto.h: the server's check of a scrambled password.
use tntpp.Common.{
  ℕ, ◌-◌, ◌%◌, ◌^◌, ◌<◌, ◌≤◌, ◌≡◌, refl, ap, ◌∙◌, true, some, List, [], ◌∷◌, ◌++◌, arith, leb,
  le→leb, length, take, take-length, take_all, length-append, bit_xor-bit_xor,
}
use tntpp.Crypto.{
  Sha1, Base64, IsSha1, scramble_size, count_padding, replace_padding, xor_bytes, decoded_salt,
  absorb, scramble_password,
}

xor_bytes-xor_bytes : (xs ys : List ℕ) → length xs ≤ length ys → xor_bytes (xor_bytes xs ys) ys ≡ xs
unfolding xor_bytes
xor_bytes-xor_bytes [] ys h = refl
xor_bytes-xor_bytes (x ∷ xs) [] h = absurd (omega arith)
xor_bytes-xor_bytes (x ∷ xs) (y ∷ ys) h =
    rw (bit_xor-bit_xor x y, xor_bytes-xor_bytes xs ys (omega arith))

length-xor_bytes : (xs ys : List ℕ) → length xs ≤ length ys → length (xor_bytes xs ys) ≡ length xs
unfolding xor_bytes
length-xor_bytes [] ys h = refl
length-xor_bytes (x ∷ xs) [] h = absurd (omega arith)
length-xor_bytes (x ∷ xs) (y ∷ ys) h = omega (arith, length-xor_bytes xs ys (omega arith))

pub decoded_salt-padded :
    (b : Base64) (salt m pad : List ℕ)
    → b.decode (replace_padding (b.trim salt)) ≡ some (m ++ pad)
    → length pad ≡ count_padding (b.trim salt)
    → decoded_salt b salt ≡ some m
unfolding decoded_salt
decoded_salt-padded b salt m pad e l =
    let n : length (m ++ pad) - count_padding (b.trim salt) ≡ length m =
      omega (arith, length-append m pad) in
    let fits : leb (count_padding (b.trim salt)) (length (m ++ pad)) ≡ true =
      le→leb _ _ (omega (arith, length-append m pad)) in
    rw (e, fits, n, take-length m pad) refl

module _ (d : Sha1) (b : Base64) (laws : IsSha1 d) where
  open laws use {hash, absorbed}

  absorb-enough :
      (c : d.Context) (bs : List ℕ) (len : ℕ)
      → len ≤ length bs
      → absorb d b c bs len ≡ some (d.update c bs len)
  unfolding absorb
  absorb-enough c bs len h = rw (le→leb len (length bs) h)

  -- The digest of what one or two updates of a new context absorb.
  digest_one :
      (bs : List ℕ) (len : ℕ)
      → len ≤ length bs
      → len < 2 ^ 32
      → d.final (d.update d.init bs len).0 ≡ hash (take len bs)
  digest_one bs len h lt =
      laws.final-hash _
      ∙ ap hash (laws.absorbed-update d.init bs len h lt ∙ rw laws.absorbed-init refl)

  digest_two :
      (xs ys : List ℕ) (m n : ℕ)
      → m ≤ length xs
      → m < 2 ^ 32
      → n ≤ length ys
      → n < 2 ^ 32
      → d.final (d.update (d.update d.init xs m).0 ys n).0 ≡ hash (take m xs ++ take n ys)
  digest_two xs ys m n h lt k lt' =
      laws.final-hash _
      ∙ ap hash (
          laws.absorbed-update (d.update d.init xs m).0 ys n k lt'
          ∙ rw (laws.absorbed-update d.init xs m h lt, laws.absorbed-init) refl)

  -- What the server keeps of a password, and its check of a reply to a salt.
  abbrev pub stored : List ℕ → List ℕ
  stored password = hash (hash password)

  abbrev pub Accepts : List ℕ → List ℕ → List ℕ → Type 0
  Accepts kept salt reply = hash (xor_bytes reply (hash (take scramble_size salt ++ kept))) ≡ kept

  take-hash : (m : List ℕ) → take 20 (hash m) ≡ hash m
  take-hash m = take_all 20 (hash m) (omega (arith, laws.length-hash m))

  -- The reply for a decoded salt.
  abbrev pub reply_to : List ℕ → List ℕ → List ℕ
  reply_to password m = xor_bytes (hash password) (hash (take scramble_size m ++ stored password))

  pub reply_to-Accepts : (password m : List ℕ) → Accepts (stored password) m (reply_to password m)
  reply_to-Accepts password m = ap hash (
      xor_bytes-xor_bytes (hash password) (hash (take scramble_size m ++ stored password)) (
        omega (
          arith,
          laws.length-hash password,
          laws.length-hash (take scramble_size m ++ stored password),
        )))

  pub scramble_password_lem :
      (password salt m : List ℕ)
      → length password < 2 ^ 32
      → decoded_salt b salt ≡ some m
      → 20 ≤ length m
      → scramble_password d b password salt
        ≡ some (reply_to password m, (d.update d.init password (length password)).1)
  unfolding scramble_password
  scramble_password_lem password salt m lt e h =
      let n : length password % 2 ^ 32 ≡ length password = omega arith in
      let one : d.final (d.update d.init password (length password)).0 ≡ hash password =
        digest_one password (length password) (omega arith) lt
        ∙ ap hash (take_all (length password) password (omega arith)) in
      let two : d.final (d.update d.init (hash password) 20).0 ≡ stored password =
        digest_one (hash password) 20 (omega (arith, laws.length-hash password)) (omega arith)
        ∙ ap hash (take-hash password) in
      let long : leb 20 (length (hash password)) ≡ true =
        le→leb _ _ (omega (arith, laws.length-hash password)) in
      let long2 : leb 20 (length (stored password)) ≡ true =
        le→leb _ _ (omega (arith, laws.length-hash (hash password))) in
      let last : d.final (d.update (d.update d.init m 20).0 (stored password) 20).0
          ≡ hash (take 20 m ++ stored password) =
        digest_two m (stored password) 20 20 h (omega arith)
          (omega (arith, laws.length-hash (hash password))) (omega arith)
        ∙ ap (λ l. hash (take 20 m ++ l)) (take-hash (hash password)) in
      rw
        (
          e,
          n,
          le→leb (length password) (length password) (omega arith),
          one,
          long,
          laws.kept d.init (hash password) 20 (omega arith),
          two,
          le→leb 20 (length m) h,
          long2,
        )
        (ap
          (λ o. some (xor_bytes (hash password) o, (d.update d.init password (length password)).1))
          last)

  -- If the trimmed salt, with `A` in place of each `=`, decodes to `m` and one byte of padding for
  -- each `=`, and `m` has at least 20 bytes, then for a password of less than 2^32 bytes the
  -- scrambled password has 20 bytes and the server, which keeps the digest of the digest of the
  -- password, accepts it as a reply to `m`.
  pub scramble_password-Accepts :
      (password salt m pad : List ℕ)
      → length password < 2 ^ 32
      → b.decode (replace_padding (b.trim salt)) ≡ some (m ++ pad)
      → length pad ≡ count_padding (b.trim salt)
      → 20 ≤ length m
      → (reply password' : List ℕ) × (scramble_password d b password salt ≡ some (reply, password'))
        × (length reply ≡ 20)
        × Accepts (stored password) m reply
  scramble_password-Accepts password salt m pad lt e l h = (
    reply_to password m,
    (d.update d.init password (length password)).1,
    scramble_password_lem password salt m lt (decoded_salt-padded b salt m pad e l) h,
    length-xor_bytes (hash password) (hash (take scramble_size m ++ stored password)) (
          omega (
            arith,
            laws.length-hash password,
            laws.length-hash (take scramble_size m ++ stored password),
          ))
        ∙ laws.length-hash password,
    reply_to-Accepts password m,
  )

  -- For a password of at most 64 bytes the caller's password is as it was.
  pub scramble_password-kept :
      (password salt m pad : List ℕ)
      → length password ≤ 64
      → b.decode (replace_padding (b.trim salt)) ≡ some (m ++ pad)
      → length pad ≡ count_padding (b.trim salt)
      → 20 ≤ length m
      → (reply : List ℕ) × (scramble_password d b password salt ≡ some (reply, password))
  scramble_password-kept password salt m pad short e l h = (
    reply_to password m,
    scramble_password_lem password salt m (omega arith) (decoded_salt-padded b salt m pad e l) h
        ∙ ap (λ p. some (reply_to password m, p))
            (laws.kept d.init password (length password) short),
  )
