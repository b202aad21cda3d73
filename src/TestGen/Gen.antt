-- ===== src/TestGen/Gen.antt =====
-- src/sockets/testgen.rs: the socket `SimpleTestGen`.
use polysock.Base.{ℕ, ◌+◌, ◌%◌, ◌^◌, String, Option, none, some, List, [], ◌∷◌}
use polysock.Base.{ltb, ◌==◌, if◌then◌else◌, M, exit, println, sleep_micros, lit, num}
use polysock.Base.{pure, lift, emit, ◌>>=◌, ◌>>◌}
use polysock.Sock.{ComplexSock, description}
use polysock.TestGen.{TestGenTypes, TestGenConfig, TestGenPrivate, Private}
use polysock.TestGen.{get_curr_size, update_pos}
use polysock.TestGen.Strategy.{Strategy, strategy_read, reset_priv}

pub record SimpleTestGen : Type 0 where
  pub stype : String
  pub id : ℕ
  pub config : TestGenConfig
  pub pat_cfg : TestGenTypes
  pub p : TestGenPrivate
  pub reader : Strategy

-- A write through the `RefCell`.
abbrev pub set_private : SimpleTestGen → TestGenPrivate → SimpleTestGen
set_private g p = record g { p = p }

-- The sleep before a pattern starts.
unfoldable pub wait_cycle : M SimpleTestGen (Unit {0})
wait_cycle g = if g.p.pos == 0 then emit (sleep_micros g.config.cycle) g else pure tt g

-- The iteration constraint, checked when a pattern ends.
unfoldable pub check_limit : M SimpleTestGen (Unit {0})
check_limit g = elim g.p.max_iter [
  | none ↦ pure tt g
  | some max_iter ↦
      let curr_iter = (g.p.curr_iter + 1) % 2 ^ 64 in
      let g' = set_private g (record g.p { curr_iter = curr_iter }) in
      let line = lit "Max iteration limit is reached (" ∷ num max_iter ∷ lit " iterations)" ∷ [] in
      if ltb max_iter curr_iter
      then record { out = exit 0; state = g'; log = println line ∷ [] }
      else pure tt g'
]

unfoldable pub store_priv : Option Private → M SimpleTestGen (Unit {0})
store_priv q g = pure tt (set_private g (record g.p { pattern_priv = q }))

unfoldable pub reset : M SimpleTestGen (Unit {0})
unfolding store_priv
reset g = (lift (reset_priv g.reader g.p.pattern_priv) >>= store_priv) g

-- What follows the strategy's read of `ret` bytes: the position, and the end of a pattern.
unfoldable pub advance : ℕ → ℕ → M SimpleTestGen (Unit {0})
unfolding update_pos
advance sz real_size g =
    let g' = set_private g (update_pos g.p sz real_size) in
    if g'.p.pos == 0 then (check_limit >> reset) g' else pure tt g'

-- The part of `read` behind the sleep.
unfoldable pub fill : List ℕ → ℕ → M SimpleTestGen (ℕ × List ℕ)
unfolding get_curr_size store_priv
fill buf sz g =
    let real_size = get_curr_size g.p.pattern_size sz g.p.pos in
    (do
      (ret, q, buf') ←
          lift (strategy_read g.reader g.pat_cfg g.p.pattern_priv buf real_size g.p.pos)
      store_priv q
      advance sz real_size
      pure (ret, buf'))
      g

unfoldable pub read : List ℕ → ℕ → M SimpleTestGen (ℕ × List ℕ)
unfolding wait_cycle fill
read buf sz = wait_cycle >> fill buf sz

-- Writes are skipped.
unfoldable pub write : List ℕ → ℕ → M SimpleTestGen (Unit {0})
write buf sz = pure tt

-- The socket; what the source does not implement is the trait's default.
abbrev pub test_gen : ComplexSock
test_gen = record {
  State = SimpleTestGen;
  open_sock = pure tt;
  close = pure tt;
  drop_sock = pure tt;
  read = read;
  write = write;
  set_block = λ is_blocking. pure tt;
  get_type_name = λ g. g.stype;
  get_id = λ g. g.id;
  get_description = λ g. description g.stype g.id;
}
