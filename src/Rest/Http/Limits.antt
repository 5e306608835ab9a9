-- ===== src/Rest/Http/Limits.antt =====
-- The rate limits, from the fields on the wire to the counters of a client.
use bintrade.Prelude.{◌≡◌, ap, str}
use bintrade.Rest.Client.{Platform, Client, counter, update_rate_limits}
use bintrade.Rest.Http.{WireResponse, build_response}
use bintrade.Rest.Http.Headers.{last_field, lookup-build_response}

module _ (P : Platform) where
  open P use {map}

  -- A client reads each of its three counters from the field of a response that names it, in whatever
  -- case the server spelled the name, and from the last one if it came more than once.
  pub update_rate_limits-build_response :
      (res : WireResponse) (c : Client)
      → let after = (update_rate_limits P (build_response map res) c).1 in
        (after.used_weight_1m
          ≡ counter P (last_field (str "x-mbx-used-weight-1m") res.fields) c.used_weight_1m)
        × (after.order_count_10s
            ≡ counter P (last_field (str "x-mbx-order-count-10s") res.fields) c.order_count_10s)
        × (after.order_count_1d
            ≡ counter P (last_field (str "x-mbx-order-count-1d") res.fields) c.order_count_1d)
  unfolding update_rate_limits
  update_rate_limits-build_response res c = (
    ap (λ v. counter P v c.used_weight_1m)
        (lookup-build_response map (str "x-mbx-used-weight-1m") res),
    ap (λ v. counter P v c.order_count_10s)
        (lookup-build_response map (str "x-mbx-order-count-10s") res),
    ap (λ v. counter P v c.order_count_1d)
        (lookup-build_response map (str "x-mbx-order-count-1d") res),
  )
