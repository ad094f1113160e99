-- ===== src/Lib.antt =====
-- MyParaview-Web, the browser side: the parts of the frontend that decide what is shown, as
-- functions on values. The viewer loads a file of a dataset, turns it into points and cells, and
-- draws it in a WebGL context; the display state says how it is drawn, and the player changes the
-- timestep that is drawn.
--
-- Grid models frontend/src/lib/structuredGrid.ts, which reads a VTS or VTR document:
--   Grid/Extent: parseExtent, pointCount, cellDimensions, cellCount
--   Grid/Topology: buildPieceTopology; the loops list primitives with their corners as grid
--     indices, and `connectivity` and `sources` are the arrays that the code fills
--   Grid/Connectivity: appendConnectivity
--   Grid/Arrays: readAttributeArrays, readStructuredPoints, readRectilinearPoints
--   Grid/Combine: compatibleArrayNames, combinePieces, the checks of parseStructuredSurface
--   Grid/Piece: parsePiece and parseStructuredSurface
-- Display models frontend/src/hooks/useDisplayState.ts, and the types of frontend/src/types.ts
-- that it uses: Display/Snapshot holds the snapshots and snapshotsEqual, Display/History the hook's
-- state, its setters, the recording effect, undo, redo, restoreViewState and reset.
-- Playback models frontend/src/hooks/useTimestepPlayback.ts: its effects, its handlers and the
-- timer. It sets the timestep of the display state by setPlaybackTimestep, which is
-- `set_playback_timestep` of Display/History.
-- Layout models frontend/src/hooks/useLayoutPreferences.ts: the panels, and what is stored of them.
-- LocalDataset models frontend/src/lib/localDataset.ts: LocalDataset/Paths the names and paths,
-- LocalDataset/Create the reading of collections and columns, LocalDataset/Build createLocalDataset.
-- ContextPool models frontend/src/lib/viewer/contextPool.ts, a store of leases.
-- Csv models frontend/src/lib/csvToPoints.ts: Csv/Parser is parseCsv, Csv/Points is csvToPointData.
-- ColorMap models frontend/src/lib/colormap.ts: the validation of ids and stops, and in
-- ColorMap/Registry the registration of custom maps with its eviction, and retainColorMap.
-- Glyph models deterministicSampleIndices and samplePointVectors of
-- frontend/src/lib/viewer/vectorGlyph.ts.
-- Json holds the values that JSON.parse returns, and the numbers of the language.
-- View models frontend/src/lib/viewState.ts: View/Fields has the readers of the fields of a stored
-- view, View/Parser is parseViewState, with the registration of an embedded color map, whose reading
-- is ColorMap/Definition. View/Parser/Source writes the object of a view; the view that is read is
-- what restoreViewState of Display/History takes.
-- VtkXml models frontend/src/lib/vtkXml.ts: VtkXml/Bytes the integers of a header, VtkXml/Block
-- decodeBlock, VtkXml/Typed bytesToTyped, VtkXml/Document indexOfSequence and parseVtkXmlDocument,
-- VtkXml/DataArray decodeInline and readVtkDataArray. Grid takes the arrays that it reads.
-- Vtu models frontend/src/lib/vtu.ts: Vtu/Faces counts the faces of solid cells, Vtu/Cells is the loop
-- over the cells of a piece, Vtu/Surface the loop over the pieces with the arrays of the surface.
-- Preset models frontend/src/lib/paraviewPreset.ts, with the ids in Preset/Ids; what it reads is given
-- to the registration of ColorMap/Registry.
-- Connection models frontend/src/hooks/useServerConnection.ts as events, and Connection/Mode
-- frontend/src/lib/appMode.ts with setApiBase of frontend/src/api.ts.
-- Project models what belongs to the current project: Project/Scope is
-- frontend/src/hooks/useProjectScope.ts, Project/Session frontend/src/hooks/useRemoteSession.ts and
-- Project/Polling frontend/src/hooks/useJobPolling.ts, as events on their states, with the switch of
-- projects, the loss of the server and the selection of a dataset of frontend/src/App.tsx.
-- Project/Resources is frontend/src/hooks/useProjectResources.ts, with what answers to calls of
-- frontend/src/hooks/usePipelineActions.ts and frontend/src/App.tsx do to the lists; Project/Pipelines
-- is restorePipeline, and Project/Banners the messages of frontend/src/App.tsx.
-- Jobs models mergeJobSnapshots and isCancellable of frontend/src/lib/job.ts, which keep the list of
-- the jobs that the server reports; Project/Polling calls the merge.
-- Slice models the clamps of slices and timesteps in frontend/src/lib/slice.ts and
-- frontend/src/lib/comparison.ts.
-- Common holds the helpers that the parts share: lists, tests, integers, results, equality.
--
-- Numbers of the browser that the code only copies or compares are of a type parameter; where they
-- are compared, the type has an equality test, so NaN is not one of them. Counts, ids and sizes are
-- natural numbers without a bound: the reader refuses more than 2,000,000 points, far below
-- 2 ^ 53, and an extent whose size is beyond 2 ^ 53 is refused by that limit however it is rounded.
-- Errors are values of Result or Option. A typed array is a list, and writing beyond its end is an
-- error. The loop of appendConnectivity takes fuel, one more than the array has values, which is
-- enough since each round reads one value at least. The eviction loop takes fuel too, one more than
-- there are custom maps, each round of which removes one. The loop of restorePipeline takes two more
-- than there are nodes, since each round but the last visits a new one, and the digits of a hash 7 and
-- 13, since 36 ^ 7 and 36 ^ 13 are above 2 ^ 32 and 2 ^ 64. All other loops are structural recursion.
-- In a VTU file ids, offsets, types and counts are natural numbers; a point id that is read past the
-- end of the connectivity is NaN, as in the code.
--
-- A request and its answer are two events, so that any others come between them; the answer to a
-- request names the request by its place among those that are unanswered. A timeout is an event too.
-- Inflating, base64, JSON, TextEncoder, new URL, the storage, the XML parser, the clock of updated_at and the operators on numbers are
-- parameters; a number of eight bytes is exact below 2 ^ 53, which the theorems assume of it. The
-- text of a view's numbers and the order of an object's members are not modelled.
--
-- Not modelled: the contents of the XML document, whose attributes and arrays are inputs to Grid;
-- what Number makes of a text, a parameter; React's scheduling, for which a render and an effect
-- are steps that may come in any order; durations of timers; the drawing library; requests to the
-- server; the server and its workers, which are other programs.
pub mod Common
pub mod Grid
pub mod Display
pub mod Connection
pub mod ContextPool
pub mod Layout
pub mod LocalDataset
pub mod Playback
pub mod Csv
pub mod ColorMap
pub mod Glyph
pub mod Json
pub mod Jobs
pub mod Preset
pub mod Project
pub mod Slice
pub mod View
pub mod VtkXml
pub mod Vtu
