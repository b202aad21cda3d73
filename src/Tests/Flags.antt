-- ===== src/Tests/Flags.antt =====
-- The decorators that src/args.rs chooses, with a sample factory.
use polysock.Base.{
  ◌≡◌, refl, true, false, some, none, [], ◌∷◌, arith, println, lit, num, debug, hex_dump, returns,
}
use polysock.Args.{OnelinerArgs, unidir, set_decorators}
use polysock.Args.Order.{all_traces, set_decorators-order}
use polysock.Tests.Samples.{every_line}
use polysock.Tests.Bindings.{louds}

abbrev pub sample_args : OnelinerArgs
sample_args = record {
  exchange_mode = unidir;
  blocking = false;
  from_dev = "test-gen";
  to_dev = "stdio";
  from_params = some "{}";
  to_params = none;
  trace_info = true;
  trace_raw = false;
  trace_canon = true;
  trace_from_off = false;
  trace_to_off = true;
}

set_decorators-order_example :
    (set_decorators every_line (all_traces sample_args) louds).sock.write (1 ∷ 2 ∷ 3 ∷ []) 2 []
    ≡ returns tt ((1 ∷ 2 ∷ 3 ∷ []) ∷ []) (
        println (lit "Data is transered to: " ∷ lit "sink" ∷ num 0 ∷ [])
        ∷ println (lit "Data is written: " ∷ debug (1 ∷ 2 ∷ []) ∷ [])
        ∷ println (lit "Written data (canonical format):\n" ∷ hex_dump (1 ∷ 2 ∷ []) ∷ [])
        ∷ [])
set_decorators-order_example =
    set_decorators-order every_line sample_args louds (1 ∷ 2 ∷ 3 ∷ []) 2 (λ line. refl)
      (omega arith) (omega arith) refl
