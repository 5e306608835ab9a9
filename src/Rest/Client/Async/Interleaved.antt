-- ===== src/Rest/Client/Async/Interleaved.antt =====
-- Many coroutines of one client at a time: each may wait as long as it likes, and the answers come
-- in any order.
use bintrade.Rest.Client.Async.Coroutines.{
  Answer, coroutine_of, Updates, IsServed, coroutine_of-IsServed,
}
use bintrade.Prelude.{
  subst, Reach, Reach-preserves, ℕ, suc, ℤ, ◌≡◌, refl, ap, ◌∙◌, List, [], ◌∷◌, Option, none, some,
  Text, str, lookup, if◌then◌else◌, ◌==◌, inl, inr, Bool-cases,
}
use bintrade.Auth.Credentials.{Credentials}
use bintrade.Rest.Response.{HttpResponse}
use bintrade.Rest.Client.{Platform, Client, Act, make_client, counter, update_rate_limits}
use bintrade.Rest.Client.Limits.{Call, newest_header, header_value, counter-or_older}
use bintrade.Rest.Client.Async.{Started, done, waiting}

module _ (P : Platform) where
  open P use {map, json}
  open map use {Map}

  -- The client, what each waiting coroutine will do, the number of the next one, and the responses
  -- that came back, newest first.
  pub record System : Type 0 where
    pub client : Client
    pub suspended : ℕ → Option (HttpResponse → Act Answer)
    pub next_id : ℕ
    pub answered : List HttpResponse

  abbrev pub update :
      (ℕ → Option (HttpResponse → Act Answer))
      → ℕ
      → Option (HttpResponse → Act Answer)
      → ℕ
      → Option (HttpResponse → Act Answer)
  update f i v j = if i == j then v else f j

  -- A coroutine up to its wait. One that throws before it leaves nothing behind.
  pub launch : Started Answer → System → System
  launch (done r) s = s
  launch (waiting r k) s = record s {
    client = record (s.client) { requests = r ∷ s.client.requests };
    suspended = update s.suspended s.next_id (some k);
    next_id = suc s.next_id;
  }

  pub data Step : System → System → Type 0 where
    begins : (s : System) (call : Call P) → Step s (launch (coroutine_of P call s.client) s)
    answers :
        (s : System) (i : ℕ) (k : HttpResponse → Act Answer) (resp : HttpResponse)
        → s.suspended i ≡ some k
        → Step s (record s {
          client = (k resp s.client).1;
          suspended = update s.suspended i none;
          answered = resp ∷ s.answered;
        })
    fails :
        (s : System) (i : ℕ) (k : HttpResponse → Act Answer)
        → s.suspended i ≡ some k
        → Step s (record s { suspended = update s.suspended i none })

  abbrev pub start : Option Credentials → System
  start creds = record {
    client = make_client creds;
    suspended = λ i. none;
    next_id = 0;
    answered = [];
  }

  pub newest : Text → List HttpResponse → ℤ
  newest name resps = header_value P (newest_header name resps)

  pub record Inv (s : System) : Type 0 where
    pub weight : s.client.used_weight_1m ≡ newest (str "x-mbx-used-weight-1m") s.answered
    pub orders_10s : s.client.order_count_10s ≡ newest (str "x-mbx-order-count-10s") s.answered
    pub orders_1d : s.client.order_count_1d ≡ newest (str "x-mbx-order-count-1d") s.answered
    pub all_served : (i : ℕ) (k : HttpResponse → Act Answer) → s.suspended i ≡ some k → Updates P k

  update-served :
      (f : ℕ → Option (HttpResponse → Act Answer)) (i j : ℕ)
      (v : Option (HttpResponse → Act Answer)) (k : HttpResponse → Act Answer)
      → ((k : HttpResponse → Act Answer) → v ≡ some k → Updates P k)
      → ((j : ℕ) (k : HttpResponse → Act Answer) → f j ≡ some k → Updates P k)
      → update f i v j ≡ some k
      → Updates P k
  update-served f i j v k new old e = elim (Bool-cases (i == j)) [
    | inl same ↦ new k (rw same at e)
    | inr other ↦ old j k (rw other at e)
  ]

  answered-newest :
      (name : Text) (resp : HttpResponse) (older : List HttpResponse) {old : ℤ}
      → old ≡ newest name older
      → counter P (lookup name resp.headers) old ≡ newest name (resp ∷ older)
  unfolding newest
  answered-newest name resp older e =
      ap (counter P (lookup name resp.headers)) e
      ∙ counter-or_older P (lookup name resp.headers) (newest_header name older)

  answered-Inv :
      (s : System) (i : ℕ) (k : HttpResponse → Act Answer) (resp : HttpResponse)
      → Updates P k
      → Inv s
      → Inv (record s {
        client = (k resp s.client).1;
        suspended = update s.suspended i none;
        answered = resp ∷ s.answered;
      })
  unfolding update_rate_limits Updates
  answered-Inv s i k resp u v =
      let e = (u resp s.client s.client).0 in
      record {
        weight = ap (λ c. c.used_weight_1m) e ∙ answered-newest _ resp s.answered v.weight;
        orders_10s = ap (λ c. c.order_count_10s) e ∙ answered-newest _ resp s.answered v.orders_10s;
        orders_1d = ap (λ c. c.order_count_1d) e ∙ answered-newest _ resp s.answered v.orders_1d;
        all_served = λ j k e. update-served s.suspended i j none k (λ k e. cc) v.all_served e;
      }

  waiting_one :
      (k : HttpResponse → Act Answer)
      → Updates P k
      → (l : HttpResponse → Act Answer) → some k ≡ some l
      → Updates P l
  waiting_one k w l e = subst (Updates P) (cc e) w

  launch-Inv : (s : System) (st : Started Answer) → IsServed P st → Inv s → Inv (launch st s)
  unfolding launch Updates IsServed
  launch-Inv s (done r) w v = v
  launch-Inv s (waiting r k) w v = record {
    weight = v.weight;
    orders_10s = v.orders_10s;
    orders_1d = v.orders_1d;
    all_served = λ j l e.
        update-served s.suspended s.next_id j (some k) l (λ l e. waiting_one k w l e) v.all_served
          e;
  }

  Step-Inv : {s t : System} → Step s t → Inv s → Inv t
  Step-Inv (begins s call) v = launch-Inv s _ (coroutine_of-IsServed P call s.client) v
  Step-Inv (answers s i k resp e) v = answered-Inv s i k resp (v.all_served i k e) v
  Step-Inv (fails s i k e) v = record {
    weight = v.weight;
    orders_10s = v.orders_10s;
    orders_1d = v.orders_1d;
    all_served = λ j l e. update-served s.suspended i j none l (λ l e. cc) v.all_served e;
  }

  start-Inv : (creds : Option Credentials) → Inv (start creds)
  unfolding newest make_client
  start-Inv creds = record {
    weight = refl;
    orders_10s = refl;
    orders_1d = refl;
    all_served = λ i k e. cc;
  }

  -- However many coroutines of a new client run beside one another on one thread, of any of its six
  -- asynchronous calls, and in whatever order their answers come or fail to come: each counter is the
  -- number in its header in the newest answer that carried it, -1 if that was no number, and 0 before
  -- there is one; and what a waiting coroutine will return or throw depends on its own response alone,
  -- not on the client.
  pub Reach-limits :
      (creds : Option Credentials) {s : System}
      → Reach Step (start creds) s
      → (s.client.used_weight_1m ≡ newest (str "x-mbx-used-weight-1m") s.answered)
        × (s.client.order_count_10s ≡ newest (str "x-mbx-order-count-10s") s.answered)
        × (s.client.order_count_1d ≡ newest (str "x-mbx-order-count-1d") s.answered)
        × ((i : ℕ) (k : HttpResponse → Act Answer) (resp : HttpResponse) (d : Client)
            → s.suspended i ≡ some k
            → (k resp s.client).0 ≡ (k resp d).0)
  unfolding Updates
  Reach-limits creds {s} r =
      let v = Reach-preserves Step Inv (λ s t. Step-Inv) r (start-Inv creds) in
      (v.weight, v.orders_10s, v.orders_1d, λ i k resp d e. (v.all_served i k e resp s.client d).1)
