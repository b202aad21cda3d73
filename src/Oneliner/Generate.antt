-- ===== src/Oneliner/Generate.antt =====
-- src/modes/oneliner.rs with the test generator of src/sockets/testgen.rs as its source.
use polysock.Base.{
  ℕ, ◌+◌, ◌/◌, ◌%◌, ◌^◌, ◌≤◌, ◌<◌, ◌≡◌, refl, ap, ◌∙◌, String, Bool, true, false, some, List, ◌∷◌,
  ◌++◌, replicate, length, arith,
}
use polysock.Base.{Outcome, ok, exit, Event, Error, Text, returns}
use polysock.Sock.{SocketFactory, SocketParams, counting, SockDocViewer, Parsed, parsed}
use polysock.Sock.Manager.{new_manager, bind_unidirectional}
use polysock.Sock.Manager.Binding.{bind_unidirectional-ok}
use polysock.Sock.Manager.Copies.{Accepts}
use polysock.Oneliner.{OnelinerModeParams, new_mode, thread_of, execute}
use polysock.Sock.Threads.{Turn}
use polysock.Oneliner.Joins.{status}
use polysock.Oneliner.Execute.{drop_sockets-exit, execute-status}
use polysock.TestGen.{TestGenConfig}
use polysock.TestGen.Gen.{SimpleTestGen, test_gen}
use polysock.TestGen.Factory.{test_gen_factory}
use polysock.TestGen.Pattern.{iteration}
use polysock.TestGen.Created.{Serves, create_sock-IsValid}
use polysock.TestGen.Pump.{iterations, binding_thread-limit}

-- A factory makes the same sockets where its counter is a part of something larger.
pub counting-returns :
    {V W : Type 0} (get : W → V) (set : V → W → W) (factory : SocketFactory V)
    (params : SocketParams) (w : W) {s : factory.sock.State} {v : V} {l : List Event}
    → factory.create_sock params (get w) ≡ returns s v l
    → (counting get set factory).create_sock params w ≡ returns s (set v w) l
counting-returns get set factory params w e = rw e refl

-- A run in one direction from the test generator, whose counter is a part of what the factories
-- change, to another socket that can be created and opened and accepts the
-- messages: with a configuration that the generator can serve, whose pattern fits into memory, a
-- limit of iterations, the flag set until then, and fuel for each chunk of an iteration, the
-- process ends with status 0, and the other socket has been given exactly the configured
-- iterations, one message each and in order.
pub execute-generates :
    {W : Type 0} (get : W → ℕ) (set : ℕ → W → W) (read_to_string : String → Outcome (List ℕ))
    (from_str : String → Parsed TestGenConfig) (doc : SockDocViewer) (to_factory : SocketFactory W)
    (display : Error → Text) (params : OnelinerModeParams) (cfg : TestGenConfig) (content : List ℕ)
    (w w2 : W) (limit fuel : ℕ) (loads : List Bool) (turns : List Turn)
    (t t' end : to_factory.sock.State) (l4 l5 : List Event)
    → params.bidir ≡ false
    → from_str params.f_params ≡ parsed cfg
    → Serves read_to_string cfg.pat content
    → cfg.iter_num ≡ some limit
    → limit + 1 < 2 ^ 64
    → length (iteration cfg.pat content 0) < 2 ^ 64
    → length (iteration cfg.pat content 0) / 1024 + 1 ≤ fuel
    → to_factory.create_sock params.to_params (set ((get w + 1) % 2 ^ 32) w) ≡ returns t w2 l4
    → to_factory.sock.open_sock t ≡ returns tt t' l5
    → Accepts to_factory.sock end t' (iterations cfg.pat content 0 limit)
    → let f_factory = counting get set (test_gen_factory read_to_string from_str doc) in
      let flags = replicate limit true ++ (true ∷ loads) in
      (g : SimpleTestGen) × ((bind_unidirectional
          (new_manager f_factory to_factory)
          params.f_params
          params.to_params
          params.blocking
          w).out
        ≡ ok (g, t'))
      × ((thread_of f_factory to_factory display fuel flags (g, t')).state.1 ≡ end)
      × ((execute f_factory to_factory display fuel flags turns
            (new_mode f_factory to_factory display params, w)).out
          ≡ exit 0)
execute-generates get set read_to_string from_str doc to_factory display params cfg content w w2
      limit fuel loads turns t t' end l4 l5 one parses serves limited small fits enough creates
      opens accepts =
    let f_factory = counting get set (test_gen_factory read_to_string from_str doc) in
    let flags = replicate limit true ++ (true ∷ loads) in
    let (g, created, valid, start, fresh, max_iter, pat, config, id) =
      create_sock-IsValid read_to_string from_str params.f_params cfg content (get w) parses
        serves in
    let bound =
      bind_unidirectional-ok f_factory to_factory params.f_params params.to_params params.blocking
        (counting-returns get set (test_gen_factory read_to_string from_str doc) params.f_params w
          created)
        refl refl creates opens in
    let size : g.p.pattern_size ≡ length (iteration cfg.pat content 0) =
      valid.sized ∙ ap (λ c. length (iteration c content 0)) pat in
    let run =
      binding_thread-limit to_factory.sock limit 0 fuel limit content g t' end loads valid start
        (max_iter ∙ limited) (omega (arith, fresh)) small (omega (arith, size, fits))
        (omega (arith, size, enough)) (rw pat accepts) in
    let ends = drop_sockets-exit test_gen to_factory.sock _ run.0 in
    (
      g,
      bound.0,
      ap (λ p. p.1) ends.1 ∙ run.1,
      execute-status f_factory to_factory display params fuel flags turns w (g, t') one bound.0
          ∙ ap status ends.0,
    )
