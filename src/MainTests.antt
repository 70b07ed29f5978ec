-- ===== src/MainTests.antt =====
-- mainTests.cpp and the tests of Tests/Tests.h and Tests/TLSTests.h. The three tests in which two
-- threads talk through the network are arguments of the main function.
pub mod Passing
use small_http_server.Base.{
  ℕ, Bool, true, false, List, [], ◌∷◌, ◌++◌, Option, none, some, ◌==◌, if◌then◌else◌, length,
}
use small_http_server.Exceptions.{Exception, Result, ok, throw}
use small_http_server.Run.{Run, ◌>>=◌}
use small_http_server.Text.{Buffer, codes, str_eq}
use small_http_server.Http.Packet.{Params, connection_param, get_path, is_get_method}
use small_http_server.Http.Parser.{parse, extract_field, split}
use small_http_server.Http.ContentType.{get_content_type}
use small_http_server.Net.System.{System, Trace}
use small_http_server.Net.TlsContext

-- How a test ends: it returns, an assert fails, or an exception leaves it.
pub data Verdict : Type 0 where
  passed aborted : Verdict
  thrown : Exception → Verdict

abbrev pub check {ℓ} : {A : Type ℓ} → Result A → (A → Verdict) → Verdict
check (ok a) f = f a
check (throw e) f = thrown e

abbrev pub assert : Bool → Verdict → Verdict
assert b rest = if b then rest else aborted

abbrev pub buffer : Buffer
buffer =
    codes "GET /index.html?a=5 HTTP/1.1\r\n"
    ++ codes "Host: 127.0.0.1:2000\r\n"
    ++ codes
        "User-Agent: Mozilla/5.0 (X11; Ubuntu; Linux x86_64; rv:35.0) Gecko/20100101 Firefox/35.0\r\n"
    ++ codes "Accept: text/html,application/xhtml+xml,application/xml;q=0.9,*//*;q=0.8\r\n"
    ++ codes "Accept-Language: en-US,en;q=0.5\r\n"
    ++ codes "Accept-Encoding: gzip, deflate\r\n"
    ++ codes "Connection: keep-alive\r\n"

unfoldable pub test_get_parse : Verdict
test_get_parse = check (parse buffer) λ packet. check (get_path packet) λ path.
    assert (str_eq path (codes "/index.html"))
      (check (is_get_method packet) (λ is_get. assert is_get passed))

unfoldable pub test_extract : Verdict
test_extract =
    check (extract_field buffer connection_param)
      λ field. assert (str_eq field (codes "keep-alive")) passed

-- The lines that Split returns are as many as that.
unfoldable pub assert_lines : Option (Result (List Buffer)) → ℕ → Verdict → Verdict
assert_lines none n rest = aborted
assert_lines (some lines) n rest = check lines (λ ls. assert (length ls == n) rest)

unfoldable pub test_split : Verdict
unfolding assert_lines
test_split = assert_lines (split buffer) 7 (
    assert_lines (split (codes "String line \r\n")) 1 (
      assert_lines (split (codes "String line \r\n 12345")) 2
        (assert_lines (split (codes "String line ")) 1 passed)))

-- In the order of the keys.
abbrev pub test_files : Params
test_files =
    (codes "file.css", codes "text/css")
    ∷ (codes "file.csv", codes "text/csv")
    ∷ (codes "file.gif", codes "image/gif")
    ∷ (codes "file.htm", codes "text/html")
    ∷ (codes "file.html", codes "text/html")
    ∷ (codes "file.ico", codes "image/x-icon")
    ∷ (codes "file.jpeg", codes "image/jpeg")
    ∷ (codes "file.jpg", codes "image/jpeg")
    ∷ (codes "file.js", codes "application/javascript")
    ∷ (codes "file.json", codes "application/json")
    ∷ (codes "file.pdf", codes "application/pdf")
    ∷ (codes "file.png", codes "image/png")
    ∷ (codes "file.svg", codes "application/svg+xml")
    ∷ (codes "file.txt", codes "text/plain")
    ∷ []

unfoldable pub assert_types : Params → Verdict
assert_types [] = passed
assert_types ((name, content_type) ∷ rest) =
    check (get_content_type name) λ res. assert (str_eq res content_type) (assert_types rest)

unfoldable pub test_get_content_type : Verdict
unfolding assert_types
test_get_content_type = assert_types test_files

-- A test makes calls of the system.
abbrev pub Test : Type 0
Test = Trace → Verdict × Trace

abbrev pub pure_test : Verdict → Test
pure_test v trace = (v, trace)

-- What a computation of the library ends with; `none` is the end of fuel, which no test here meets.
abbrev pub verdict : Option (Result (Unit {0}) × Trace) → Verdict × Trace
verdict none = (aborted, [])
verdict (some (ok r, trace)) = (passed, trace)
verdict (some (throw e, trace)) = (thrown e, trace)

-- The next test is run where the one before it has passed.
unfoldable pub continue_with : Verdict × Trace → Test → Verdict × Trace
continue_with (passed, trace) next = next trace
continue_with (aborted, trace) next = (aborted, trace)
continue_with (thrown e, trace) next = (thrown e, trace)

unfoldable pub run_in_order : List Test → Test
unfolding continue_with
run_in_order [] trace = (passed, trace)
run_in_order (test ∷ tests) trace = continue_with (test trace) (run_in_order tests)

-- The tests that two threads run through the network.
pub record Network : Type 0 where
  pub test_snd_rcv : Test
  pub test_connect : Test
  pub test_tls_snd_rcv : Test

module _ (system : System) where
  -- A context that is made and destroyed at the end of its block.
  unfoldable pub context_block : Bool → Run Trace (Unit {0})
  context_block is_server = TlsContext.create system is_server >>= TlsContext.destroy system

  unfoldable pub test_tls_creating : Test
  unfolding context_block
  test_tls_creating trace = verdict ((context_block true >>= λ _. context_block false) trace)

  -- The tests in their order.
  unfoldable pub tests : Network → List Test
  unfolding test_extract test_get_parse test_split test_get_content_type test_tls_creating
  tests network =
      pure_test test_extract
      ∷ pure_test test_get_parse
      ∷ pure_test test_split
      ∷ pure_test test_get_content_type
      ∷ network.test_snd_rcv
      ∷ network.test_connect
      ∷ test_tls_creating
      ∷ network.test_tls_snd_rcv
      ∷ []

  -- The main function; it returns 0 where every test has passed.
  unfoldable pub run_tests : Network → Test
  unfolding run_in_order tests
  run_tests network = run_in_order (tests network)
