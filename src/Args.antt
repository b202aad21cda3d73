-- ===== src/Args.antt =====
-- src/args.rs: the command line, as it is parsed, and the decorators that its flags put around a
-- factory.
pub mod Order
pub mod Traced
pub mod Factories
pub mod Scenario
pub mod Delivered
pub mod Run
use polysock.Base.{Text, String, Bool, Option, if◌then◌else◌}
use polysock.Sock.{SocketFactory, SocketParams}
use polysock.Sock.Decorators.{trace_info, trace_raw, trace_canonical, decorator_factory}

pub data ExchangeMode : Type 0 where
  unidir bidir : ExchangeMode

pub record OnelinerArgs : Type 0 where
  pub exchange_mode : ExchangeMode
  pub blocking : Bool
  pub from_dev : String
  pub to_dev : String
  pub from_params : Option SocketParams
  pub to_params : Option SocketParams
  pub trace_info : Bool
  pub trace_raw : Bool
  pub trace_canon : Bool
  pub trace_from_off : Bool
  pub trace_to_off : Bool

pub record InfoArgs : Type 0 where
  pub ty : String
  pub no_schema : Bool
  pub no_examples : Bool

pub data Commands : Type 0 where
  oneliner : OnelinerArgs → Commands
  info : InfoArgs → Commands
  script repl : Commands

pub record PolySockArgs : Type 0 where
  pub command : Option Commands

-- Whether the standard output takes a line.
module _ {W : Type 0} (stdout : Text → Bool) where
  -- The closure `set_decorators`.
  abbrev pub set_decorators : OnelinerArgs → SocketFactory W → SocketFactory W
  set_decorators args f =
      let f1 = if args.trace_info then decorator_factory (trace_info stdout) f else f in
      let f2 = if args.trace_raw then decorator_factory (trace_raw stdout) f1 else f1 in
      if args.trace_canon then decorator_factory (trace_canonical stdout) f2 else f2

  -- The factories of the two directions.
  abbrev pub from_factory : OnelinerArgs → SocketFactory W → SocketFactory W
  from_factory args f = if args.trace_from_off then f else set_decorators args f

  abbrev pub to_factory : OnelinerArgs → SocketFactory W → SocketFactory W
  to_factory args f = if args.trace_to_off then f else set_decorators args f
