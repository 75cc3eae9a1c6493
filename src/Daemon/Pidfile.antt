-- ===== src/Daemon/Pidfile.antt =====
-- The pid file of src/daemon.c under several starts.
use professor_ai.Prelude.Text.{decimal, length-decimal}
use professor_ai.Prelude.{
  ℕ, zero, suc, ◌+◌, ◌-◌, ◌*◌, ◌/◌, ◌^◌, ◌%◌, ◌≤◌, ◌<◌, ◌≡◌, refl, ap, sym, ◌∙◌, inl, inr, true,
  false, Option, none, some, [], ◌∷◌, ◌++◌, if◌then◌else◌, ◌==◌, ltb, leb, length, take, arith,
  Bool-cases, length-append, append_assoc,
}
use professor_ai.Prelude.Int.{pos}
use professor_ai.Prelude.Bytes.{Bytes, take_all}
use professor_ai.Config.Parse.{
  digits, long_of, strtol_long, trim_start, to_int32-pos, is_nil, is_space,
}
use professor_ai.Daemon.{Posix, pid_text, create, unlink, holds, replace, write_pidfile}

-- Ten to the power of the fuel.
abbrev pow10 : ℕ → ℕ
pow10 zero = 1
pow10 (suc f) = 10 * pow10 f

digits_digit :
    (acc d : ℕ) (rest : Bytes) → d < 10 → digits acc ((48 + d) ∷ rest) ≡ digits (acc * 10 + d) rest
unfolding digits
digits_digit acc d rest h =
    let low : leb 48 (48 + d) ≡ true = ground arith in
    let high : leb (48 + d) 57 ≡ true = ground arith in
    let back : 48 + d - 48 ≡ d = omega arith in rw (low, high, back) refl

-- `strtol` reads the digits back, whatever follows.
digits-decimal :
    (fuel n : ℕ) (rest : Bytes)
    → n < pow10 (suc fuel)
    → digits 0 (decimal (suc fuel) n ++ rest) ≡ digits n rest
unfolding digits decimal
digits-decimal zero n rest h =
    let small : ltb n 10 ≡ true = ground arith in
    rw small (digits_digit 0 n rest (omega arith) ∙ ap (λ v. digits v rest) (omega arith))
digits-decimal (suc fuel) n rest h = elim (Bool-cases (ltb n 10)) [
  | inl small ↦
      rw small (digits_digit 0 n rest (ground arith) ∙ ap (λ v. digits v rest) (omega arith))
  | inr large ↦
      let last = 48 + n % 10 in
      let ih = digits-decimal fuel (n / 10) (last ∷ rest) (omega arith) in
      rw (large, append_assoc (decimal (suc fuel) (n / 10)) (last ∷ []) rest)
        (ih
          ∙ digits_digit (n / 10) (n % 10) rest (omega arith)
          ∙ ap (λ v. digits v rest) (omega arith))
]

-- What is printed starts with a digit.
decimal-head :
    (fuel n : ℕ) → (c : ℕ) × (s : Bytes) × (decimal (suc fuel) n ≡ c ∷ s) × (48 ≤ c) × (c ≤ 57)
unfolding decimal
decimal-head zero n = elim (Bool-cases (ltb n 10)) [
  | inl small ↦ (48 + n, [], rw small refl, omega arith, ground arith)
  | inr large ↦ (48 + n % 10, [], rw large refl, omega arith, omega arith)
]
decimal-head (suc fuel) n = elim (Bool-cases (ltb n 10)) [
  | inl small ↦ (48 + n, [], rw small refl, omega arith, ground arith)
  | inr large ↦
      let (c, s, e, lo, hi) = decimal-head fuel (n / 10) in
      (c, s ++ (48 + n % 10) ∷ [], rw (large, e) refl, lo, hi)
]

strtol_long-digit :
    (c : ℕ) (s : Bytes)
    → 48 ≤ c
    → c ≤ 57
    → digits 0 (c ∷ s) < 2 ^ 63
    → strtol_long (c ∷ s) ≡ pos (digits 0 (c ∷ s))
unfolding strtol_long trim_start is_space long_of
strtol_long-digit c s lo hi small =
    let not_space : is_space c ≡ false = ground arith in
    let not_minus : (c == 45) ≡ false = ground arith in
    let not_plus : (c == 43) ≡ false = ground arith in
    let fits : leb (2 ^ 63) (digits 0 (c ∷ s)) ≡ false = ground arith in
    rw (not_space, not_minus, not_plus, fits) refl

digits_newline : (n : ℕ) → digits n (10 ∷ []) ≡ n
unfolding digits
digits_newline n = refl

-- What is written for a pid of 31 bits is read back as that pid.
strtol_long-pid_text : (pid : ℕ) → pid < 2 ^ 31 → strtol_long (pid_text pid) ≡ pos pid
unfolding pid_text
strtol_long-pid_text pid small =
    let (c, s, e, lo, hi) = decimal-head 9 pid in
    let back = digits-decimal 9 pid (10 ∷ []) (omega arith) in
    let value : digits 0 (c ∷ s ++ 10 ∷ []) ≡ pid =
      ap (λ t. digits 0 (t ++ 10 ∷ [])) (sym e) ∙ back ∙ digits_newline pid in
    ap (λ t. strtol_long (t ++ 10 ∷ [])) e
    ∙ strtol_long-digit c (s ++ 10 ∷ []) lo hi (rw value omega arith)
    ∙ ap pos value

length-pid_text : (pid : ℕ) → length (pid_text pid) ≤ 11
unfolding pid_text
length-pid_text pid =
    ground (arith, length-decimal 10 pid, length-append (decimal 10 pid) (10 ∷ []))

is_nil-pid_text : (pid : ℕ) → is_nil (pid_text pid) ≡ false
unfolding pid_text is_nil
is_nil-pid_text pid = let (c, s, e, _, _) = decimal-head 9 pid in ap (λ t. is_nil (t ++ 10 ∷ [])) e

-- The file of a process is in its hold exactly while `kill(pid, 0)` succeeds for it.
holds-pid_text :
    (p : Posix) (pid : ℕ) → 0 < pid → pid < 2 ^ 31 → holds p (pid_text pid) ≡ p.alive (pos pid)
unfolding holds
holds-pid_text p pid positive small =
    let old : strtol_long (take 31 (pid_text pid)) ≡ pos pid =
      ap strtol_long (take_all 31 (pid_text pid) (omega (arith, length-pid_text pid)))
      ∙ strtol_long-pid_text pid small in
    let above : ltb 0 (pid + 0) ≡ true = ground arith in
    rw (is_nil-pid_text pid, old, to_int32-pos pid small, above) refl

-- The file system does what it is asked.
abbrev pub Works : Posix → Type 0
Works p = (p.creatable ≡ true) × (p.readable ≡ true) × (p.removable ≡ true) × (11 ≤ p.accepts)

create_text :
    (p : Posix) (pid : ℕ) (file : Option Bytes) (text : Bytes)
    → create p pid file ≡ (true, some text)
    → text ≡ pid_text pid
unfolding create
create_text p pid none text h = ground arith
create_text p pid (some old) text h = ground arith

write_text :
    (p : Posix) (pid : ℕ) (path : Bytes) (file : Option Bytes) (text : Bytes)
    → is_nil path ≡ false
    → write_pidfile p pid path file ≡ (true, some text)
    → text ≡ pid_text pid
unfolding write_pidfile is_nil
write_text p pid [] file text given h = ground arith
write_text p pid (c ∷ path) none text given h = create_text p pid none text h
write_text p pid (c ∷ path) (some old) text given h =
    ground (arith, create_text p pid (unlink p (some old)) text)

create-Works : (p : Posix) (pid : ℕ) → Works p → create p pid none ≡ (true, some (pid_text pid))
unfolding create
create-Works p pid (c, _, _, a) =
    let all : ltb p.accepts (length (pid_text pid)) ≡ false = ground (arith, length-pid_text pid) in
    rw (c, all) refl

replace-Works :
    (p : Posix) (pid : ℕ) (file : Option Bytes)
    → Works p
    → replace p pid file ≡ (true, some (pid_text pid))
unfolding replace unlink
replace-Works p pid none works = create-Works p pid works
replace-Works p pid (some text) (cr, re, rm, acc) = simp (rm, create-Works p pid (cr, re, rm, acc))

-- A second start, on a file system that does what it is asked, finds the file that the first wrote for a
-- pid of 1 to 2^31 - 1: it gets the pid file exactly when `kill(pid, 0)` fails for the first process
-- (which it also does for a running process of another user), and leaves the file alone otherwise.
pub write_pidfile_excludes :
    (p q : Posix) (pid other : ℕ) (path : Bytes) (file : Option Bytes) (text : Bytes)
    → is_nil path ≡ false
    → 0 < pid
    → pid < 2 ^ 31
    → write_pidfile p pid path file ≡ (true, some text)
    → Works q
    → write_pidfile q other path (some text)
      ≡ (if q.alive (pos pid) then (false, some text) else (true, some (pid_text other)))
unfolding write_pidfile is_nil unlink
write_pidfile_excludes p q pid other [] file text given positive small h works = ground arith
write_pidfile_excludes p q pid other (c ∷ path) file text given positive small h (cr, re, rm, acc) =
    let e = write_text p pid (c ∷ path) file text given h in
    let held : holds q text ≡ q.alive (pos pid) =
      ap (holds q) e ∙ holds-pid_text q pid positive small in
    simp (re, held, rm, create-Works q other (cr, re, rm, acc))

-- Two starts that have both found the same file without a holder, before either replaces it, both get the
-- pid file, and it names the later one only: the second takes away what the first has just created.
pub replace_races :
    (p q : Posix) (pid other : ℕ) (file : Option Bytes)
    → Works p
    → Works q
    → (replace p pid file ≡ (true, some (pid_text pid)))
      × (replace q other (replace p pid file).1 ≡ (true, some (pid_text other)))
replace_races p q pid other file works works' =
    let first = replace-Works p pid file works in
    (
      first,
      ap (λ r. replace q other r.1) first ∙ replace-Works q other (some (pid_text pid)) works',
    )
