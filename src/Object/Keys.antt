-- ===== src/Object/Keys.antt =====
-- Equality of the keys of crates/storage/src/object/mod.rs.
use bydesigns_db.Base.{◌≡◌, refl, true, bytes_eq→eq, bytes_eq_refl, arith}
use bydesigns_db.Object.Client.{
  Key, lease, retention, log, delta, image, branch_ptr, overlay, key_eq,
}

pub key_eq→eq : (j k : Key) → key_eq j k ≡ true → j ≡ k
key_eq→eq lease lease h = refl
key_eq→eq lease retention h = cc
key_eq→eq lease (log m) h = cc
key_eq→eq lease (delta c d) h = cc
key_eq→eq lease (image m) h = cc
key_eq→eq lease (branch_ptr m) h = cc
key_eq→eq lease (overlay m ys) h = cc
key_eq→eq retention lease h = cc
key_eq→eq retention retention h = refl
key_eq→eq retention (log m) h = cc
key_eq→eq retention (delta c d) h = cc
key_eq→eq retention (image m) h = cc
key_eq→eq retention (branch_ptr m) h = cc
key_eq→eq retention (overlay m ys) h = cc
key_eq→eq (log n) lease h = cc
key_eq→eq (log n) retention h = cc
key_eq→eq (log n) (log m) h = ground arith
key_eq→eq (log n) (delta c d) h = cc
key_eq→eq (log n) (image m) h = cc
key_eq→eq (log n) (branch_ptr m) h = cc
key_eq→eq (log n) (overlay m ys) h = cc
key_eq→eq (delta a b) lease h = cc
key_eq→eq (delta a b) retention h = cc
key_eq→eq (delta a b) (log m) h = cc
key_eq→eq (delta a b) (delta c d) h = ground arith
key_eq→eq (delta a b) (image m) h = cc
key_eq→eq (delta a b) (branch_ptr m) h = cc
key_eq→eq (delta a b) (overlay m ys) h = cc
key_eq→eq (image n) lease h = cc
key_eq→eq (image n) retention h = cc
key_eq→eq (image n) (log m) h = cc
key_eq→eq (image n) (delta c d) h = cc
key_eq→eq (image n) (image m) h = ground arith
key_eq→eq (image n) (branch_ptr m) h = cc
key_eq→eq (image n) (overlay m ys) h = cc
key_eq→eq (branch_ptr n) lease h = cc
key_eq→eq (branch_ptr n) retention h = cc
key_eq→eq (branch_ptr n) (log m) h = cc
key_eq→eq (branch_ptr n) (delta c d) h = cc
key_eq→eq (branch_ptr n) (image m) h = cc
key_eq→eq (branch_ptr n) (branch_ptr m) h = ground arith
key_eq→eq (branch_ptr n) (overlay m ys) h = cc
key_eq→eq (overlay n xs) lease h = cc
key_eq→eq (overlay n xs) retention h = cc
key_eq→eq (overlay n xs) (log m) h = cc
key_eq→eq (overlay n xs) (delta c d) h = cc
key_eq→eq (overlay n xs) (image m) h = cc
key_eq→eq (overlay n xs) (branch_ptr m) h = cc
key_eq→eq (overlay n xs) (overlay m ys) h = ground (arith, bytes_eq→eq xs ys)

pub key_eq_refl : (k : Key) → key_eq k k ≡ true
key_eq_refl lease = refl
key_eq_refl retention = refl
key_eq_refl (log n) = ground arith
key_eq_refl (delta a b) = ground arith
key_eq_refl (image n) = ground arith
key_eq_refl (branch_ptr n) = ground arith
key_eq_refl (overlay n xs) = ground (arith, bytes_eq_refl xs)
