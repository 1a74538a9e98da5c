-- ===== src/Tests/Disk.antt =====
-- A disk of one file in memory, on which writes work or, where it is full, fail; its file calls
-- behave as `Posix` says. The hook refuses everything.
use airgap.Prelude.{
  ℕ, zero, suc, ◌≡◌, ◌≢◌, refl, sym, ap, ◌∙◌, Bool, true, false, [], ◌∷◌, Option, none, some, arith,
  Bytes, Result, ok, err, length, take, drop, map, length-take, length-drop, take-all, not, retain,
  nat_beq,
}
use airgap.Std.Text.{split_once, lines}
use airgap.Redact.Env.{Dotenvy}
use airgap.Redact.Yaml.{Value, YamlCrate, string}
use airgap.Fs.Types.{Errno, enoent, os_error, unfinished, System}
use airgap.Fs.Io.{resize, splice}
use airgap.Fs.Io.Whole.{Posix}

abbrev pub as_string : Value → Option Bytes
as_string (string s) = some s
as_string v = none

abbrev pub yaml : YamlCrate
yaml = record {
  from_slice = λ bytes. some (string bytes);
  to_string = as_string;
  as_str = as_string;
}

-- Every line is a key and a value, without its quotes.
abbrev pub pair_of : Option (Bytes × Bytes) → Option (Bytes × Bytes)
pair_of none = none
pair_of (some (k, v)) = some (k, retain (λ b. not (nat_beq b 34)) v)

abbrev pub dotenvy : Dotenvy
dotenvy bytes = map (λ line. pair_of (split_once b'=' line)) (lines bytes)

abbrev pub put : Bool → Bytes → Bytes → ℕ → Result Errno ℕ × Bytes
put true w bytes offset = (err (os_error 28), w)
put false w bytes offset = (ok (length bytes), splice w offset bytes)

abbrev pub disk : Bool → System
disk full = record {
  World = Bytes;
  Fd = Unit {0};
  Gate = Unit {0};
  content = λ w fd. w;
  openat = λ w p o m. (ok tt, w);
  pread = λ w fd n offset. ok (take n (drop offset w));
  pwrite = λ w fd bytes offset. put full w bytes offset;
  ftruncate = λ w fd n. (ok tt, resize w n);
  readlinkat = λ w p. err enoent;
  allow = λ g p a. (false, g);
  crates = record { dotenvy = dotenvy; yaml = yaml };
}

take-length-take : (n : ℕ) (xs : Bytes) → take n xs ≡ take (length (take n xs)) xs
take-length-take zero xs = refl
take-length-take (suc n) [] = refl
take-length-take (suc n) (x ∷ xs) = ap (◌∷◌ x) (take-length-take n xs)

empty_of : (xs : Bytes) → length xs ≡ 0 → xs ≡ []
empty_of [] h = refl
empty_of (x ∷ xs) h = absurd (omega arith)

put-ok :
    (full : Bool) (w bytes : Bytes) (offset n : ℕ)
    → (put full w bytes offset).0 ≡ ok n
    → (n ≡ length bytes) × ((put full w bytes offset).1 ≡ splice w offset bytes)
put-ok true w bytes offset n h = cc h
put-ok false w bytes offset n h = (cc h, refl)

put-err :
    (full : Bool) (w bytes : Bytes) (offset : ℕ) (e : Errno)
    → (put full w bytes offset).0 ≡ err e
    → (e ≢ unfinished) × ((put full w bytes offset).1 ≡ w)
put-err true w bytes offset e h = (λ q. cc (h, q), refl)
put-err false w bytes offset e h = cc h

pub posix : (full : Bool) → Posix (disk full)
posix full = record {
  pread_bytes = λ w fd n offset bs h. cc (h, take-length-take n (drop offset w));
  pread_some = λ w fd n offset h p.
      (let none_there : take n (drop offset w) ≡ [] = cc h in
        omega (arith, ap length none_there, length-take n (drop offset w), length-drop offset w));
  pread_error = λ w fd n offset h. cc h;
  pwrite_bytes = λ w fd bytes offset n h.
      (let (all_of_it, done) = put-ok full w bytes offset n h in
        (omega arith, done ∙ ap (splice w offset) (sym (take-all n bytes (omega arith)))));
  pwrite_some = λ w fd bytes offset h. empty_of bytes (sym (put-ok full w bytes offset 0 h).0);
  pwrite_error = λ w fd bytes offset e h. put-err full w bytes offset e h;
  ftruncate_ok = λ w fd n h. refl;
  ftruncate_error = λ w fd n e h. cc h;
}
