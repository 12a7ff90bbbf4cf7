-- ===== src/Programs/Held.antt =====
-- What is held behind the calls of a program.
use osmo_fl2k.Prelude.{
  ℕ, zero, suc, ◌+◌, List, [], ◌∷◌, Option, none, some, Bool, true, false, if◌then◌else◌, ◌≡◌,
  ◌>>=◌,
}
use osmo_fl2k.Programs.{
  Call, allocates, frees, opens_file, closes_file, opens, opens_socket, closes_zero, sets_rate,
  closes, starts, Ended, returns, exits, crashes, waits,
}

-- What is held behind calls: buffers, files, devices, sockets.
pub record Held : Type 0 where
  pub buffers : ℕ
  pub files : ℕ
  pub devices : ℕ
  pub sockets : ℕ

abbrev one_less : ℕ → Option ℕ
one_less zero = none
one_less (suc n) = some n

-- `none` where something is given back that is not held.
abbrev pub after_call : Call → Held → Option Held
after_call allocates h = some (record h { buffers = h.buffers + 1 })
after_call frees h = one_less h.buffers >>= λ n. some (record h { buffers = n })
after_call opens_file h = some (record h { files = h.files + 1 })
after_call closes_file h = one_less h.files >>= λ n. some (record h { files = n })
after_call opens h = some (record h { devices = h.devices + 1 })
after_call closes h = one_less h.devices >>= λ n. some (record h { devices = n })
after_call opens_socket h = some (record h { sockets = h.sockets + 1 })
after_call closes_zero h = some h
after_call sets_rate h = some h
after_call (starts _) h = some h

abbrev pub after_calls : List Call → Held → Option Held
after_calls [] h = some h
after_calls (c ∷ cs) h = after_call c h >>= after_calls cs

abbrev pub nothing : Held
nothing = record { buffers = 0; files = 0; devices = 0; sockets = 0 }

-- What the program for the network leaves.
abbrev pub one_socket : Held
one_socket = record nothing { sockets = 1 }

-- A program that returns holds so much, and has given back nothing that it did not hold.
abbrev pub Leaves : Held → Ended → Type 0
Leaves left (returns code calls) = after_calls calls nothing ≡ some left
Leaves left (exits code) = Unit {0}
Leaves left crashes = Unit {0}
Leaves left (waits calls) = Unit {0}

-- It holds nothing.
abbrev pub Tidy : Ended → Type 0
Tidy = Leaves nothing

pub if-Tidy :
    (left : Held) (b : Bool) (x y : Ended)
    → Leaves left x
    → Leaves left y
    → Leaves left (if b then x else y)
if-Tidy left true x y p q = p
if-Tidy left false x y p q = q

-- A program that goes on with what it has opened, or ends.
pub cases-Tidy {ℓ} :
    (left : Held) {A : Type ℓ} (o : Option A) (x : Ended) (f : A → Ended)
    → Leaves left x
    → ((a : A) → Leaves left (f a))
    → Leaves left (elim o [ none ↦ x | some a ↦ f a ])
cases-Tidy left none x f p q = p
cases-Tidy left (some a) x f p q = q a
