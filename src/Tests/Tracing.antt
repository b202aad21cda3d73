-- ===== src/Tests/Tracing.antt =====
-- The decorators of src/sock/decorators.rs on sample inputs.
use polysock.Base.{
  ◌≡◌, refl, true, false, List, [], ◌∷◌, arith, Event, println, lit, debug, num, returns,
}
use polysock.Sock.Wrapper.{u8, read_all_loop}
use polysock.Sock.Manager.{binding_thread}
use polysock.Sock.Decorators.{
  trace_info, trace_raw, decorator, decorator_write, written, shown, slice,
}
use polysock.Sock.Decorators.Simulation.{Same}
use polysock.Sock.Decorators.Transparent.{binding_thread-decorator}
use polysock.Sock.Decorators.Trace.{raw, traced, read_all_loop-traced}
use polysock.TestGen.Gen.{test_gen}
use polysock.TestGen.Bounds.{test_gen-KeepsBuffer}
use polysock.Tests.Samples.{every_line, sample, sink, two_reads, two_reads_Deliver}

-- The raw decorator around the info decorator: the inner line comes first.
stacked_write :
    (decorator_write
      (trace_raw every_line)
      (decorator (trace_info every_line) sink)
      (5 ∷ 6 ∷ [])
      2
      []).log
    ≡ println (lit "Data is transered to: " ∷ lit "sink" ∷ num 0 ∷ [])
      ∷ println (lit "Data is written: " ∷ debug (5 ∷ 6 ∷ []) ∷ [])
      ∷ []
unfolding decorator_write written shown slice
stacked_write = refl

binding_thread-decorator_example :
    Same
      (binding_thread
        (decorator (trace_info every_line) test_gen)
        (decorator (trace_raw every_line) sink)
        1
        (true ∷ false ∷ [])
        (sample 0 0, []))
      (binding_thread test_gen sink 1 (true ∷ false ∷ []) (sample 0 0, []))
binding_thread-decorator_example =
    binding_thread-decorator (trace_info every_line) (trace_raw every_line) test_gen sink 1
      (true ∷ false ∷ []) (sample 0 0, []) (λ line. refl) (λ line. refl) test_gen-KeepsBuffer

read_all_loop-traced_example :
    (log' : List Event) × (read_all_loop
        (decorator (trace_raw every_line) two_reads)
        u8
        2
        3
        []
        ((1 ∷ 2 ∷ 3 ∷ []) ∷ (4 ∷ []) ∷ [])
      ≡ returns (1 ∷ 2 ∷ 3 ∷ 4 ∷ []) [] log')
    × (traced log' ≡ 1 ∷ 2 ∷ 3 ∷ 4 ∷ [])
read_all_loop-traced_example =
    read_all_loop-traced raw two_reads (λ line. refl) 3 2 [] (omega arith) (omega arith)
      two_reads_Deliver refl (omega arith)
