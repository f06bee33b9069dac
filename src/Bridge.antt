-- ===== src/Bridge.antt =====
-- esp-daplink-host/src/bridge.rs: the response of a request is kept until the bulk reads of the USB
-- host have taken it.
pub mod Drain
mod Tests
use esp32_dap_proxy.Prelude.{
  ℕ, zero, suc, Option, none, some, List, [], ◌∷◌, Result, ok, err, leb, if◌then◌else◌, length,
  take, drop,
}
use esp32_dap_proxy.Link.{LinkError, Net, DapLink, Done, request}

module _ (net : Net) where
  pub record DapBridge : Type 0 where
    pub link : DapLink net
    pub pending : Option (List ℕ)

  -- `DapBridge::new`
  abbrev pub new : net.World → DapBridge
  new w = record { link = esp32_dap_proxy.Link.new net w; pending = none }

  -- `if !response.is_empty()`
  abbrev pub kept : List ℕ → Option (List ℕ)
  kept [] = none
  kept (b ∷ bs) = some (b ∷ bs)

  abbrev pub store : Done net (List ℕ) → Result (Unit {0}) LinkError × DapBridge
  store (ok response, l) = (ok tt, record { link = l; pending = kept response })
  store (err e, l) = (err e, record { link = l; pending = none })

  unfoldable pub bulk_out : List ℕ → DapBridge → Result (Unit {0}) LinkError × DapBridge
  bulk_out command b = store (request net command b.link)

  -- `bulk_in` has no error.
  abbrev pub take_from : ℕ → Option (List ℕ) → DapBridge → List ℕ × DapBridge
  take_from max_len none b = ([], b)
  take_from max_len (some response) b =
      if leb (length response) max_len
      then (response, record b { pending = none })
      else (take max_len response, record b { pending = some (drop max_len response) })

  unfoldable pub bulk_in : ℕ → DapBridge → List ℕ × DapBridge
  bulk_in max_len b = take_from max_len b.pending b

  -- Bulk reads in a row, each with the limit of what asks for it, and its piece next to that.
  unfoldable pub bulk_ins {ℓ} :
      {A : Type ℓ} → (A → ℕ) → List A → DapBridge → List (A × List ℕ) × DapBridge
  bulk_ins limit [] b = ([], b)
  bulk_ins limit (x ∷ xs) b =
      let (piece, b') = bulk_in (limit x) b in
      let (pieces, b'') = bulk_ins limit xs b' in ((x, piece) ∷ pieces, b'')
