-- ===== src/Rest/Client/Async.antt =====
-- The coroutines of src/rest/client.cpp. Each waits once, for the answer of the transport: what runs
-- before the wait and what runs behind it are two steps, and other calls may run in between.
pub mod Calls
pub mod Blocking
pub mod Coroutines
pub mod Interleaved
use bintrade.Core.Error.{Result, ok, err, ◌>>=◌}
use bintrade.Rest.Response.{HttpResponse}
use bintrade.Rest.Client.{Client, Request, Act, after}

-- What a coroutine does up to its wait: it returns or throws, or it sends a request, and is resumed
-- with the response.
pub data Started {ℓ} (A : Type ℓ) : Type ℓ where
  done : Result A → Started A
  waiting : Request → (HttpResponse → Act A) → Started A

abbrev pub Coroutine {ℓ} : Type ℓ → Type ℓ
Coroutine A = Client → Started A

-- Behind the wait: what the transport throws leaves the coroutine.
abbrev pub resume {ℓ} : {A : Type ℓ} → (HttpResponse → Act A) → Result HttpResponse → Act A
resume k answer c = after (answer, c) k

-- What a caller that awaits a coroutine does behind it, without a wait of its own.
unfoldable pub passed_on {ℓ κ} :
    {A : Type ℓ} {B : Type κ} → (A → Result B) → Result A × Client → Result B × Client
passed_on f (ok a, c) = (f a, c)
passed_on f (err e, c) = (err e, c)

unfoldable pub awaited {ℓ κ} : {A : Type ℓ} {B : Type κ} → (A → Result B) → Started A → Started B
unfolding passed_on
awaited f (done r) = done (r >>= f)
awaited f (waiting r k) = waiting r (λ resp c. passed_on f (k resp c))

unfoldable pub co_await {ℓ κ} :
    {A : Type ℓ} {B : Type κ} → Coroutine A → (A → Result B) → Coroutine B
unfolding awaited
co_await co f c = awaited f (co c)
