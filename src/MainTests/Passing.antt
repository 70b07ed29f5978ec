-- ===== src/MainTests/Passing.antt =====
-- Which tests of mainTests.cpp pass.
use mathlib.Core.Option
use small_http_server.Base.{◌≡◌, refl, true, false, List, [], ◌∷◌, All}
use small_http_server.Text
use small_http_server.Text.{find, starts_with}
use small_http_server.Http.Packet
use small_http_server.Http.Packet.{get_path, is_get_method}
use small_http_server.Http.Parser
use small_http_server.Http.Parser.{parse, parse_header, extract_field, split}
use small_http_server.Http.ContentType.{get_content_type}
use small_http_server.Net.System.{System, Trace}
use small_http_server.Net.TlsContext.Class.{tls_context_class, made-destroyed}
use small_http_server.MainTests.{
  pure_test, Verdict, passed, test_get_parse, test_extract, assert_lines, test_split, assert_types,
  test_get_content_type, Test, continue_with, run_in_order, Network, context_block,
  test_tls_creating, tests, run_tests,
}

get_parse_passes : test_get_parse ≡ passed
unfolding test_get_parse parse parse_header extract_field Text.find_first_of Packet.add_param
    Packet.insert Packet.at get_path is_get_method Text.str_eq Text.find_from find starts_with
    Text.find_first_not_of Text.find_if Text.contains Text.substr Option.bind
get_parse_passes = refl

extract_passes : test_extract ≡ passed
unfolding test_extract extract_field Text.str_eq Text.find_from find starts_with
    Text.find_first_not_of Text.find_if Text.contains Text.substr Option.bind
extract_passes = refl

split_passes : test_split ≡ passed
unfolding test_split assert_lines split Parser.split_loop Parser.split_round Text.substr
    Text.find_from find starts_with
split_passes = refl

content_type_passes : test_get_content_type ≡ passed
unfolding test_get_content_type assert_types get_content_type Text.rfind Text.substr_to_end
    Packet.at Text.str_eq
content_type_passes = refl

abbrev Passes : Test → Type 0
Passes test = (trace : Trace) → (after : Trace) × (test trace ≡ (passed, after))

pure_test-Passes : (v : Verdict) → v ≡ passed → Passes (pure_test v)
pure_test-Passes v e trace = (trace, rw e)

run_in_order-Passes : (tests : List Test) → All Passes tests → Passes (run_in_order tests)
unfolding run_in_order continue_with
run_in_order-Passes [] h trace = (trace, refl)
run_in_order-Passes (test ∷ tests) (p, h) trace =
    let (middle, e) = p trace in
    let (after, e') = run_in_order-Passes tests h middle in (after, rw (e, e'))

module _ (system : System) where
  test_tls_creating-Passes : Passes (test_tls_creating system)
  unfolding test_tls_creating context_block
  test_tls_creating-Passes trace =
      let (middle, e, _) = made-destroyed system (tls_context_class system) true trace in
      let (after, e', _) = made-destroyed system (tls_context_class system) false middle in
      (after, rw (e, e'))

  -- The tests pass where those that use the network do: the four of the parser and of the content
  -- types, and the making of the contexts, always do.
  pub run_tests-Passes :
      (network : Network)
      → Passes network.test_snd_rcv
      → Passes network.test_connect
      → Passes network.test_tls_snd_rcv
      → (trace : Trace) → (after : Trace) × (run_tests system network trace ≡ (passed, after))
  unfolding run_tests tests
  run_tests-Passes network r c t = run_in_order-Passes (tests system network) (
    pure_test-Passes test_extract extract_passes,
    (
      pure_test-Passes test_get_parse get_parse_passes,
      (
        pure_test-Passes test_split split_passes,
        (
          pure_test-Passes test_get_content_type content_type_passes,
          (r, (c, (test_tls_creating-Passes, (t, tt)))),
        ),
      ),
    ),
  )
