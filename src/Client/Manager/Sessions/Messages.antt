-- ===== src/Client/Manager/Sessions/Messages.antt =====
-- A message keeps the manager's session orderly: client/src/assets/manager.cpp.
use custommodels.Base.{ℕ, ◌≡◌, refl, sym, ◌∙◌, List, [], ◌∷◌, Option, none, some, nat_key}
use custommodels.Assets.{AssetDescription, Manifest}
use custommodels.Protocol.Types.{Message, manifest_begin}
use custommodels.Client.Receiver.{
  ManifestInputResult, accepted, ignored, invalid_order, invalid_manifest, handle,
}
use custommodels.Client.Receiver.Safety.{handle-IsSafe}
use custommodels.Client.Manager.{
  ClientAssetManager, queue_asset, queue_assets, note_accepted, note_complete, note_result,
  handle_message,
}
use custommodels.Client.Manager.Received.{IsHandled, handle-IsHandled, handle_begin-accepted}
use custommodels.Client.Manager.Sessions.{
  IsOrderly, post-IsOrderly, received-IsOrderly, note_complete-IsOrderly, queue_asset-receiver,
}

note_accepted-IsOrderly :
    (n : ℕ) (m : ClientAssetManager) (received : Message)
    → IsOrderly n m
    → (handle m.receiver received).1 ≡ accepted
    → IsOrderly n (record m { receiver = (handle m.receiver received).0 })
    → IsOrderly n (note_accepted (record m { receiver = (handle m.receiver received).0 }) received)
unfolding note_accepted handle
note_accepted-IsOrderly n m (manifest_begin b) v e next =
    let (begun, same) = handle_begin-accepted m.receiver b e in
    post-IsOrderly n _ next _ m.states begun (sym same)
note_accepted-IsOrderly n m other v e next = next

pub handle_message-IsOrderly :
    (n : ℕ) (m : ClientAssetManager) (received : Message)
    → IsOrderly n m
    → IsOrderly n (handle_message m received).0
unfolding handle_message note_result
handle_message-IsOrderly n m received v = noted (handle m.receiver received).1 refl
  where
    h : IsHandled m.receiver (handle m.receiver received)
    h = handle-IsHandled m.receiver received

    next : ClientAssetManager
    next = record m { receiver = (handle m.receiver received).0 }

    moved : IsOrderly n next
    moved = received-IsOrderly n m _ v h (handle-IsSafe m.receiver received v.safe)

    noted :
        (result : ManifestInputResult)
        → (handle m.receiver received).1 ≡ result
        → IsOrderly n (note_result next received result)
    noted accepted e = note_accepted-IsOrderly n m received v e moved
    noted ManifestInputResult.complete e =
        note_complete-IsOrderly n next _ moved refl (h.finished e)
    noted ignored e = moved
    noted invalid_order e = moved
    noted invalid_manifest e = moved

queue_assets-receiver :
    (m : ClientAssetManager) (revision : ℕ) (l : List AssetDescription)
    → (queue_assets m revision l).receiver ≡ m.receiver
unfolding queue_assets
queue_assets-receiver m revision [] = refl
queue_assets-receiver m revision (a ∷ l) =
    queue_assets-receiver (queue_asset m revision a) revision l ∙ queue_asset-receiver m revision a

note_complete-receiver :
    (m : ClientAssetManager) (o : Option Manifest) → (note_complete m o).receiver ≡ m.receiver
unfolding note_complete
note_complete-receiver m none = refl
note_complete-receiver m (some manifest) = queue_assets-receiver _ _ _

note_accepted-receiver :
    (m : ClientAssetManager) (received : Message) → (note_accepted m received).receiver ≡ m.receiver
unfolding note_accepted
note_accepted-receiver m (manifest_begin b) = refl
note_accepted-receiver m other = refl

note_result-receiver :
    (m : ClientAssetManager) (received : Message) (result : ManifestInputResult)
    → (note_result m received result).receiver ≡ m.receiver
unfolding note_result
note_result-receiver m received accepted = note_accepted-receiver m received
note_result-receiver m received ManifestInputResult.complete = note_complete-receiver m _
note_result-receiver m received other = refl

pub handle_message-receiver :
    (m : ClientAssetManager) (received : Message)
    → (handle_message m received).0.receiver ≡ (handle m.receiver received).0
unfolding handle_message
handle_message-receiver m received = note_result-receiver _ received _
