-- ===== src/Listener/Blocks/Reading.antt =====
-- What reading a range of blocks does to the orders in it.
use oif_starknet.Prelude.{◌≡◌, refl, List, ◌∷◌, ◌++◌}
use oif_starknet.Prelude.Result.{Result}
use oif_starknet.Prelude.Text.{GoString, str_eq_iff}
use oif_starknet.Types.Address.{Geth}
use oif_starknet.Config.Networks.{Networks}
use oif_starknet.StarknetUtil.{Felts, KeepsSmall}
use oif_starknet.Listener.Decode.Layout.{OrderFields, FitsOrder, lay_order, order_of}
use oif_starknet.Listener.Decode.RoundTrip.{
  HasOriginData, decode_resolved_order_from_felts-lay_order,
}
use oif_starknet.Listener.Blocks.Listeners.{
  EventHandler, EmittedEvent, after_handler, parsed_args, visit_event, visit_decoded, is_open,
}

module _ {St : Type 0} (g : Geth) (chain_name : GoString) (handler : EventHandler St) where
  module _ {Felt : Type 0} (fs : Felts Felt) (networks : Networks)
      (open_event_selector : Felt) where
    -- The handler gets the order that an Open event lays out, with any recipient on the
    -- listener's chain and the event's block.
    pub visit_event-lay_order :
        (keeps : KeepsSmall fs) (o : OrderFields Felt) (b : _) (event : EmittedEvent Felt)
        (keys back : List Felt) (s : St)
        → event.keys ≡ open_event_selector ∷ keys
        → event.fields ≡ lay_order fs networks o ++ back
        → FitsOrder o
        → HasOriginData fs networks keeps b (lay_order fs networks o ++ back)
        → visit_event g chain_name handler fs networks open_event_selector event s
          ≡ after_handler (
              handler
                (parsed_args g chain_name
                  (order_of fs networks o b).order_id
                  (order_of fs networks o b))
                chain_name
                event.block_number
                s)
    unfolding visit_event is_open visit_decoded
    visit_event-lay_order keeps o b event keys back s has_keys laid fits has_data =
        rw
          (
            has_keys,
            (str_eq_iff (fs.bytes open_event_selector) (fs.bytes open_event_selector)).1 refl,
            laid,
            decode_resolved_order_from_felts-lay_order fs networks keeps b o back fits has_data,
          )
          refl
