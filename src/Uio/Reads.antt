-- ===== src/Uio/Reads.antt =====
-- Reading bytes that are there, by the laws of the lexer.
use dhcp.Prelude.{
  ℕ, ◌≤◌, ◌<◌, ◌≡◌, Bool, ◌++◌, some, none, length, take, drop, Bytes, arith, le→leb, lt→leb,
  length-append, take-length-append, drop-length-append, true,
}
use dhcp.Uio.{Uio}

module _ (u : Uio) where
  open u use {holds, consume, copy_n, read_bytes}

  pub copy_n_take :
      (n : ℕ) (bs : Bytes) (e : Bool)
      → n ≤ length bs
      → copy_n n (holds bs e) ≡ (some (take n bs), holds (drop n bs) e)
  copy_n_take n bs e h = rw (u.copy_n_law n bs e, le→leb n (length bs) h)

  pub copy_n_short :
      (n : ℕ) (bs : Bytes) (e : Bool)
      → length bs < n
      → copy_n n (holds bs e) ≡ (none, holds bs true)
  copy_n_short n bs e h = rw (u.copy_n_law n bs e, lt→leb n (length bs) h)

  pub copy_n_append :
      (n : ℕ) (d bs : Bytes) (e : Bool)
      → length d ≡ n
      → copy_n n (holds (d ++ bs) e) ≡ (some d, holds bs e)
  copy_n_append n d bs e h = rw (← h) (
      rw (
        copy_n_take (length d) (d ++ bs) e (omega (arith, length-append d bs)),
        take-length-append d bs,
        drop-length-append d bs,
      ))

  pub read_bytes_append :
      (n : ℕ) (d bs : Bytes) (e : Bool)
      → length d ≡ n
      → read_bytes n (holds (d ++ bs) e) ≡ (d, holds bs e)
  read_bytes_append n d bs e h =
      let fits = le→leb (length d) (length (d ++ bs)) (omega (arith, length-append d bs)) in
      rw (← h) (
        rw (
          u.read_bytes_law (length d) (d ++ bs) e,
          fits,
          take-length-append d bs,
          drop-length-append d bs,
        ))
