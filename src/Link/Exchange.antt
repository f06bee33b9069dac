-- ===== src/Link/Exchange.antt =====
-- A request of the host's link.rs that the target's `send_frame` (channel/tcp.rs) answers.
use esp32_dap_proxy.Prelude.{
  ℕ, ◌+◌, ◌%◌, ◌^◌, ◌≤◌, ◌≡◌, refl, ap, ◌∙◌, false, true, some, List, ◌++◌, ok, ltb, arith, length,
}
use esp32_dap_proxy.Frame.Wire.{encode}
use esp32_dap_proxy.Frame.RoundTrip.{IsNoise}
use esp32_dap_proxy.Tcp.{send_frame, written}
use esp32_dap_proxy.Link.{Net, DapLink, ensure, write_all, read_frame, try_request, request}
use esp32_dap_proxy.Link.Frames.{Supply, read_frame-encode}

-- A request that is sent at once, and whose response is read.
pub request-read_frame :
    (net : Net) (l : DapLink net) (s s₁ s₂ : net.Stream) (payload response : List ℕ)
    → l.stream ≡ some s
    → net.write_all (encode payload) s ≡ (ok tt, s₁)
    → length payload ≤ 4096
    → let l₁ = record l { stream = some s₁; requests = (l.requests + 1) % 2 ^ 64 } in
      read_frame net l₁ ≡ (ok response, record l₁ { stream = some s₂ })
      → request net payload l
        ≡ (ok response, record l { stream = some s₂; requests = (l.requests + 1) % 2 ^ 64 })
unfolding request try_request ensure write_all
request-read_frame net l s s₁ s₂ payload response here sent small r =
    let plain : ltb 4096 (length payload) ≡ false = ground arith in
    ap (request net payload) (ap (λ o. record l { stream = o }) here) ∙ rw (plain, sent, r)

module _ (net : Net) (supply : Supply net) where
  open supply use {coming}

  -- On a connection that takes the request, and on which at most 4096 bytes without a magic byte
  -- and then what the target's `send_frame` writes for a response have come, `request` returns that
  -- response at the first attempt, counts one request, and leaves the bytes behind the response.
  -- Request and response have at most 4096 bytes.
  pub request-send_frame :
      (l : DapLink net) (s s₁ : net.Stream) (payload noise response rest : List ℕ)
      → l.stream ≡ some s
      → net.write_all (encode payload) s ≡ (ok tt, s₁)
      → coming s₁ ≡ noise ++ ((send_frame written written true response).0 ++ rest)
      → IsNoise noise
      → length noise ≤ 4096
      → length payload ≤ 4096
      → length response ≤ 4096
      → (s₂ : net.Stream) × (request net payload l
          ≡ (ok response, record l { stream = some s₂; requests = (l.requests + 1) % 2 ^ 64 }))
        × (coming s₂ ≡ rest)
  unfolding send_frame encode
  request-send_frame l s s₁ payload noise response rest here sent e q low small fits =
      let l₁ = record l { stream = some s₁; requests = (l.requests + 1) % 2 ^ 64 } in
      let (s₂, r, left) =
        read_frame-encode net supply l₁ s₁ noise response rest refl e q low fits in
      (s₂, request-read_frame net l s s₁ s₂ payload response here sent small r, left)
