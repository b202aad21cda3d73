-- ===== src/Sock.antt =====
-- src/sock/mod.rs: the traits of a socket and of a socket factory.
pub mod Wrapper
pub mod Manager
pub mod Decorators
pub mod Threads
use polysock.Base.{
  ℕ, ◌+◌, ◌%◌, ◌^◌, String, Bool, List, [], ◌∷◌, M, returns, pure, ◌>>=◌, unwind_failed,
}
use polysock.Base.{Text, map_outcome, lit, num}

-- `ComplexSock`: `SimpleSock`, `SockBlockCtl` and `SockInfo` over one state. A read is given the
-- buffer and returns the count with the new contents of the buffer, which keeps its length. Every
-- caller drops its buffer when a read fails. `drop_sock` is the drop of the socket in its box.
pub record ComplexSock : Type 1 where
  pub State : Type 0
  pub open_sock : M State (Unit {0})
  pub close : M State (Unit {0})
  pub read : List ℕ → ℕ → M State (ℕ × List ℕ)
  pub write : List ℕ → ℕ → M State (Unit {0})
  pub set_block : Bool → M State (Unit {0})
  pub drop_sock : M State (Unit {0})
  pub get_type_name : State → String
  pub get_id : State → ℕ
  pub get_description : State → Text

-- The default method `get_description`.
abbrev pub description : String → ℕ → Text
description type_name id = lit type_name ∷ num id ∷ []

-- An operation on a value that the caller owns: on `Ok` the changed value is at hand.
abbrev pub on_owned : {W S A : Type 0} → M S A → S → M W (A × S)
on_owned m s w =
    let r = m s in record { out = map_outcome (λ a. (a, r.state)) r.out; state = w; log = r.log }

pub record SockDocViewer : Type 0 where
  pub get_full_scheme : Text
  pub get_examples : Text

-- `SocDocDefault`
abbrev pub doc_default : SockDocViewer
doc_default = record {
  get_full_scheme = lit "Documentation view is not implemented" ∷ [];
  get_examples = lit "Examples not provided" ∷ [];
}

abbrev pub SocketParams : Type 0
SocketParams = String

-- `SocketFactory`. `W` is what creation reads and changes: the counters of identifiers and the
-- operating system.
pub record SocketFactory (W : Type 0) : Type 1 where
  pub sock : ComplexSock
  pub create_sock : SocketParams → M W sock.State
  pub create_doc_viewer : SockDocViewer

module _ {W : Type 0} (factory : SocketFactory W) where
  open factory use {sock, create_sock}

  -- The default method `create_sock_blockctl`. If `set_block` fails, the new socket is dropped.
  unfoldable pub create_sock_blockctl : SocketParams → Bool → M W sock.State
  create_sock_blockctl params is_blocking = do
    soc ← create_sock params
    done ← on_owned (λ s. unwind_failed sock.drop_sock (sock.set_block is_blocking s)) soc
    pure done.1

-- `serde_json::from_str`, which is not the program's: a configuration, or an error with its text.
pub data Parsed (A : Type 0) : Type 0 where
  parsed : A → Parsed A
  rejected : Text → Parsed A

abbrev pub map_parsed : {A B : Type 0} → (A → B) → Parsed A → Parsed B
map_parsed f (parsed a) = parsed (f a)
map_parsed f (rejected e) = rejected e

-- `fetch_add(1)` on the counter of identifiers of a socket type, a `u32`.
abbrev pub fetch_add : M ℕ ℕ
fetch_add next_id = returns next_id ((next_id + 1) % 2 ^ 32) []

-- A factory where what it reads and changes is a part of something larger.
abbrev pub counting : {V W : Type 0} → (W → V) → (V → W → W) → SocketFactory V → SocketFactory W
counting get set factory = record {
  sock = factory.sock;
  create_sock = λ params w.
      let r = factory.create_sock params (get w) in
      record { out = r.out; state = set r.state w; log = r.log };
  create_doc_viewer = factory.create_doc_viewer;
}
