-- ===== src/Tests/Gzip.antt =====
-- A compressor that copies its input and writes a mark at the end.
use httpuv.Base.{
  ℕ, zero, suc, ◌+◌, ◌<◌, ◌≤◌, ◌≡◌, refl, ap, arith, Bool, true, false, List, [], ◌∷◌, ◌++◌, Bytes,
  bytes, ◌==◌, length, length-take, take, Option, none, some, ◌⊎◌, if◌then◌else◌,
}
use httpuv.Output.{InMemoryDataSource, in_memory_source, get_memory, close_source, write_complete}
use httpuv.Output.Memory.{Yields, joined}
use httpuv.Output.Order.{write_all}
use httpuv.Output.Whole.{in_turn, body_of, without_writes}
use httpuv.Gzip.{
  ok, stream_end, failed, streaming, done, Deflated, Zlib, GzipDataSource, refill, deflate_next,
  deflate_loop, get_gzip, gzip_source,
}
use httpuv.Gzip.Contract.{History, begun, streamed, finished, IsZlib}
use httpuv.Gzip.Fits.{get_gzip-Fits}
use httpuv.Gzip.Source.{Ready, more_data, get_gzip-returns, gzip-Yields}
use httpuv.Gzip.Body.{body_of-gzip}

abbrev as_it_fits : ℕ → Bytes → ℕ → Deflated ℕ
as_it_fits z input n =
    let output = take n input in
    record {
      code = if length output == 0 then failed else ok;
      stream = z;
      consumed = length output;
      output = output;
    }

abbrev copy : ℕ → Bool → Bytes → ℕ → Deflated ℕ
copy z true [] n = record { code = stream_end; stream = z; consumed = 0; output = take n (0 ∷ []) }
copy z true (b ∷ bs) n = as_it_fits z (b ∷ bs) n
copy z false input n = as_it_fits z input n

abbrev copier : Zlib ℕ
copier = record { init = some 0; deflate = copy }

without_last : Bytes → Option Bytes
without_last [] = none
without_last (b ∷ []) = some []
without_last (b ∷ c ∷ bs) = elim (without_last (c ∷ bs)) [ none ↦ none | some cs ↦ some (b ∷ cs) ]

without_last-mark : (s : Bytes) → without_last (s ++ 0 ∷ []) ≡ some s
unfolding without_last
without_last-mark [] = refl
without_last-mark (b ∷ []) = refl
without_last-mark (b ∷ c ∷ s) = rw (without_last-mark (c ∷ s))

take-length : (n : ℕ) (s : Bytes) → take (length (take n s)) s ≡ take n s
take-length zero [] = refl
take-length zero (b ∷ s) = refl
take-length (suc n) [] = refl
take-length (suc n) (b ∷ s) = ap (λ r. b ∷ r) (take-length n s)

copied : {f : Bool} {z : ℕ} {i o : Bytes} → History copier f z i o → (o ≡ i) × (f ≡ false)
copied (begun e) = (refl, refl)
copied (streamed {i = i} {input = input} {n = n} past some_input room) =
    (rw ((copied past).0, take-length n input) refl, refl)
copied (finished {n = n} past room e) = absurd (ground (arith, e))

copier-reads :
    (z : ℕ) (finish : Bool) (input : Bytes) (n : ℕ)
    → (copy z finish input n).consumed ≤ length input
copier-reads z true [] n = omega arith
copier-reads z true (b ∷ bs) n = omega (arith, length-take n (b ∷ bs))
copier-reads z false input n = omega (arith, length-take n input)

copier-fits :
    (z : ℕ) (finish : Bool) (input : Bytes) (n : ℕ) → length (copy z finish input n).output ≤ n
copier-fits z true [] n = omega (arith, length-take {A = ℕ} n (0 ∷ []))
copier-fits z true (b ∷ bs) n = omega (arith, length-take n (b ∷ bs))
copier-fits z false input n = omega (arith, length-take n input)

copier-progress :
    (z : ℕ) (finish : Bool) (input : Bytes) (n : ℕ)
    → (copy z finish input n).code ≡ ok
    → 0 < (copy z finish input n).consumed + length (copy z finish input n).output
copier-progress z true [] n e = absurd (ground (arith, e))
copier-progress z true (b ∷ bs) n e = ground (arith, e)
copier-progress z false input n e = ground (arith, e)

copier-streams :
    (z : ℕ) (input : Bytes) (n : ℕ) → 0 < length input → 0 < n → (copy z false input n).code ≡ ok
copier-streams z input n some_input room = ground (arith, length-take n input)

copier-whole : (i o : Bytes) (n : ℕ) → o ≡ i → 0 < n → without_last (o ++ take n (0 ∷ [])) ≡ some i
copier-whole i o zero e h = absurd (omega (arith, h))
copier-whole i o (suc zero) e h = rw e (without_last-mark i)
copier-whole i o (suc (suc n)) e h = rw e (without_last-mark i)

copier-IsZlib : IsZlib copier without_last (λ n. n)
copier-IsZlib = record {
  reads_input = copier-reads;
  fits = copier-fits;
  streams_ok =
      λ {z} {i} {o} {input} {n} past some_input room. copier-streams z input n some_input room;
  progress = copier-progress;
  finishes_ok = λ past room e. absurd (ground (arith, e));
  whole = λ {finishing} {z} {i} {o} {n} past room e. copier-whole i o n (copied past).0 room;
  bounded = λ past h. omega (arith, ap length (copied past).0, h);
}

abbrev hello : InMemoryDataSource
hello = record { buffer = bytes "hello"; pos = 0 }

abbrev zipped_hello : GzipDataSource InMemoryDataSource ℕ
zipped_hello = record { data_source = hello; zstrm = 0; next_in = []; state = streaming }

body_of-gzip_example :
    let log =
      (write_all (gzip_source in_memory_source copier 65542) zipped_hello true (in_turn 7)).1 in
    (compressed : Bytes) × (body_of true 7 log ≡ some compressed)
    × (without_last compressed ≡ some (bytes "hello"))
    × (without_writes log ≡ close_source ∷ write_complete 0 ∷ [])
body_of-gzip_example =
    body_of-gzip copier without_last (λ n. n) (bytes "hello") zipped_hello true 7 65542
      copier-IsZlib refl (omega arith) (omega arith)

hello-Yields : Yields in_memory_source hello (bytes "hello" ∷ [])
unfolding Yields get_memory
hello-Yields = (omega arith, omega arith, _, refl, (_, refl))

gzip-Yields_example :
    (compressed : List Bytes) × Yields
      (gzip_source in_memory_source copier 65542)
      zipped_hello
      compressed
    × (length compressed ≤ 6)
    × (without_last (joined compressed) ≡ some (bytes "hello"))
gzip-Yields_example =
    gzip-Yields in_memory_source copier without_last copier-IsZlib 65542 (bytes "hello") hello
      zipped_hello (bytes "hello" ∷ []) hello-Yields refl refl (omega arith)

hello-Ready : Ready in_memory_source copier (bytes "hello") zipped_hello []
hello-Ready = more_data (bytes "hello" ∷ []) refl hello-Yields (begun refl) refl

get_gzip-returns_example :
    (out : Bytes) × (v : GzipDataSource InMemoryDataSource ℕ) × (get_gzip in_memory_source copier
        65542 65536 zipped_hello
      ≡ some (out, v))
    × (length out ≤ 65536)
    × (((length out ≡ 65536) × Ready in_memory_source copier (bytes "hello") v out)
        ⊎ ((v.state ≡ done) × (without_last out ≡ some (bytes "hello"))))
get_gzip-returns_example =
    get_gzip-returns in_memory_source copier without_last copier-IsZlib 65542 (bytes "hello")
      zipped_hello [] hello-Ready (omega arith)

abbrev zipped_rest : GzipDataSource InMemoryDataSource ℕ
zipped_rest = record {
  data_source = record { buffer = bytes "hello"; pos = 3 };
  zstrm = 0;
  next_in = [];
  state = streaming;
}

zipped_hel : get_gzip in_memory_source copier 9 3 zipped_hello ≡ some (bytes "hel", zipped_rest)
unfolding get_gzip deflate_loop refill deflate_next get_memory
zipped_hel = refl

get_gzip-Fits_example : length (bytes "hel") ≤ 3
get_gzip-Fits_example =
    get_gzip-Fits in_memory_source copier copier-fits 9 3 zipped_hello zipped_rest (bytes "hel")
      zipped_hel
