-- ===== src/Booking/Start.antt =====
-- hw1/server.c: init_server, and the part of `main` that both servers share: `select` and `accept`.
use mathlib.Core.Path.{subst}
use mathlib.Core.Option.{some-injective}
use sp_homework.Common.{
  inl, inr, refl, ap, ◌⊎◌, ==_iff, Bool-cases, ◌>>=◌, ℕ, zero, suc, ◌≡◌, Bool, true, false, ◌||◌,
  Option, none, some, List, [], ◌∷◌, ◌==◌, if◌then◌else◌,
}
use sp_homework.Common.Int.{ℤ, pos, negsuc, ltb_ℤ}
use sp_homework.Booking.{Record, Request, Server, unlocked, Input, free_request, accept_on}

-- What the calls of init_server give: the descriptor, the results, and whether there is memory.
pub record Calls : Type 0 where
  pub socket : ℤ
  pub setsockopt : ℤ
  pub bind : ℤ
  pub listen : ℤ
  pub memory : Bool

-- A call that fails ends the process.
abbrev pub checked : ℤ → Option ℤ
checked result = if ltb_ℤ result (pos 0) then none else some result

-- init_request on each slot, from whatever is in the memory, and the slot of the listening socket. The
-- model has a slot for every descriptor, the program for those below `maxfd`.
unfoldable pub init_table : ℕ → (ℕ → Request) → ℕ → Request
unfolding free_request
init_table listen_fd memory i =
    let r = free_request (memory i) in
    if listen_fd == i then record r { conn_fd = pos listen_fd } else r

abbrev pub with_socket : ℤ → Bool → (ℕ → Request) → Option (ℕ × (ℕ → Request))
with_socket (pos fd) true memory = some (fd, init_table fd memory)
with_socket socket enough memory = none

unfoldable pub init_server : Calls → (ℕ → Request) → Option (ℕ × (ℕ → Request))
unfolding init_table
init_server calls memory = checked calls.socket >>= λ fd. checked calls.setsockopt >>= λ a.
    checked calls.bind >>= λ b. checked calls.listen >>= λ c. with_socket fd calls.memory memory

-- `main` up to its loop: the locks of the globals are zero, and only the listening socket is watched.
unfoldable pub start_main : Calls → (ℕ → Request) → (ℕ → Record) → Option (ℕ × Server)
start_main calls memory file = init_server calls memory >>= λ made. some (
  made.0,
  record {
    requests = made.1;
    master_set = λ i. made.0 == i;
    read_lock = λ k. pos 0;
    write_lock = λ k. false;
    file = file;
    held = λ k. unlocked;
    effects = [];
  },
)

-- What `accept` gives: a descriptor, or an `errno`.
pub data Accepted : Type 0 where
  connects : ℕ → Accepted
  interrupted again table_full : Accepted
  fails : Accepted

-- What is reported to a pass of the loop: whether a client connects, and what the other descriptors of
-- `working_set` have to read.
pub record Report : Type 0 where
  pub accepting : Option Accepted
  pub working : ℕ → Option Input
  pub busy : ℕ → Bool

-- The descriptors that the loop over `i` takes, `n` of them from `i` on.
unfoldable pub readable_from : (n i listen_fd file_fd : ℕ) → (ℕ → Option Input) → List (ℕ × Input)
readable_from zero i listen_fd file_fd working = []
readable_from (suc n) i listen_fd file_fd working =
    let rest = readable_from n (suc i) listen_fd file_fd working in
    if (i == listen_fd) || (i == file_fd)
    then rest
    else elim (working i) [ none ↦ rest | some input ↦ (i, input) ∷ rest ]

-- A pass of `while (1)`: `serve` is the loop over the connections. With `continue` it is left out.
abbrev pub main_pass : (Server → Option Server) → Option Accepted → Server → Option Server
main_pass serve none s = serve s
main_pass serve (some (connects fd)) s = serve (accept_on fd s)
main_pass serve (some interrupted) s = some s
main_pass serve (some again) s = some s
main_pass serve (some table_full) s = some s
main_pass serve (some fails) s = none

checked_lem :
    {A : Type 0} (z : ℤ) (f : ℤ → Option A) (r : A) → (checked z >>= f) ≡ some r → f z ≡ some r
checked_lem z f r e = elim (Bool-cases (ltb_ℤ z (pos 0))) [
  | inl failed ↦ let clash = rw failed at e in cc
  | inr good ↦ rw good at e
]

with_socket_lem :
    (z : ℤ) (enough : Bool) (memory : ℕ → Request) (made : ℕ × (ℕ → Request))
    → with_socket z enough memory ≡ some made
    → made.1 ≡ init_table made.0 memory
with_socket_lem (pos fd) true memory made e =
    subst (λ (m : ℕ × (ℕ → Request)). m.1 ≡ init_table m.0 memory) (some-injective _ _ e) refl
with_socket_lem (pos fd) false memory made e = cc
with_socket_lem (negsuc n) true memory made e = cc
with_socket_lem (negsuc n) false memory made e = cc

pub init_server_lem :
    (calls : Calls) (memory : ℕ → Request) (made : ℕ × (ℕ → Request))
    → init_server calls memory ≡ some made
    → made.1 ≡ init_table made.0 memory
unfolding init_server
init_server_lem calls memory made e = with_socket_lem calls.socket calls.memory memory made (
    checked_lem calls.listen _ made (
      checked_lem calls.bind _ made
        (checked_lem calls.setsockopt _ made (checked_lem calls.socket _ made e))))

-- Behind init_table no connection is open, and each slot has its own descriptor or none.
pub init_table-own :
    (fd : ℕ) (memory : ℕ → Request) (i : ℕ)
    → ((init_table fd memory i).stage ≡ 0)
      × (((init_table fd memory i).conn_fd ≡ pos i) ⊎ ((init_table fd memory i).conn_fd ≡ negsuc 0))
unfolding init_table
init_table-own fd memory i = elim (Bool-cases (fd == i)) [
  | inl here ↦ rw here (refl, inl (ap pos ((==_iff fd i).0 here)))
  | inr other ↦ rw other (refl, inr refl)
]
