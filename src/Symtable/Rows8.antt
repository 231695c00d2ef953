-- ===== src/Symtable/Rows8.antt =====
-- src/symtable.rs: the rows of lines 1016 to 1158.
use docsis_config_generator.Common.{List, [], ◌∷◌}
use docsis_config_generator.Symbol.{Symbol, Enc, Render}
use docsis_config_generator.Symtable.Row.{row}

abbrev pub rows8 : List Symbol
rows8 =
    row 158 "DsChannelList" 41 0 Enc.nothing Render.aggregate 0 0
    ∷ row 159 "SingleDsChannel" 1 158 Enc.nothing Render.aggregate 0 0
    ∷ row 160 "SingleDsTimeout" 1 159 Enc.ushort Render.ushort 0 65535
    ∷ row 161 "SingleDsFrequency" 2 159 Enc.uint Render.uint 0 4294967295
    ∷ row 2001 "SingleDsChannelType" 3 159 Enc.uchar Render.uchar 0 255
    ∷ row 162 "DsFreqRange" 2 158 Enc.nothing Render.aggregate 0 0
    ∷ row 163 "DsFreqRangeTimeout" 1 162 Enc.ushort Render.ushort 0 65535
    ∷ row 164 "DsFreqRangeStart" 2 162 Enc.uint Render.uint 0 4294967295
    ∷ row 165 "DsFreqRangeEnd" 3 162 Enc.uint Render.uint 0 4294967295
    ∷ row 166 "DsFreqRangeStepSize" 4 162 Enc.uint Render.uint 0 4294967295
    ∷ row 2002 "DsFreqRangeChannelType" 5 162 Enc.uchar Render.uchar 0 255
    ∷ row 167 "DefaultScanTimeout" 3 158 Enc.ushort Render.ushort 0 65535
    ∷ row 1427 "MulticastMACAddress" 42 0 Enc.ether Render.ether 0 0
    ∷ row 1288 "VendorSpecific" 43 0 Enc.nothing Render.aggregate 0 0
    ∷ row 1289 "CMLoadBalancingPolicyID" 1 1288 Enc.uint Render.uint 0 0
    ∷ row 1290 "CMLoadBalancingPriority" 2 1288 Enc.uint Render.uint 0 0
    ∷ row 1291 "CMLoadBalancingGroupID" 3 1288 Enc.uint Render.uint 0 0
    ∷ row 1292 "CMRangingClassIDExtension" 4 1288 Enc.ushort Render.ushort 0 0
    ∷ row 1293 "L2VPNEncoding" 5 1288 Enc.nothing Render.aggregate 0 0
    ∷ row 1294 "VPNIdentifier" 1 1293 Enc.hexstr Render.hexstr 4 255
    ∷ row 1295 "NSIEncapsulation" 2 1293 Enc.nothing Render.aggregate 0 0
    ∷ row 1296 "ServiceMultiplexingValueOther" 1 1295 Enc.lenzero Render.lenzero 0 0
    ∷ row 1297 "NSIEncapsulationSingleQTag" 2 1295 Enc.ushort Render.ushort 0 4096
    ∷ row 1298 "NSIEncapsulationDualQTag" 3 1295 Enc.dual_qtag Render.dual_qtag 0 0
    ∷ row 1299 "ServiceMultiplexingValueMPLSPW" 4 1295 Enc.nothing Render.aggregate 0 0
    ∷ row 1300 "MPLSPseudowireID" 1 1299 Enc.uint Render.uint 0 0
    ∷ row 1301 "MPLSPeerIpAddress" 2 1299 Enc.char_ip_ip6 Render.char_ip_ip6 0 0
    ∷ row 1302 "MPLSPseudowireType" 3 1299 Enc.uchar Render.uchar 0 0
    ∷ row 1303 "MPLSBackupPseudowireID" 4 1299 Enc.uint Render.uint 0 0
    ∷ row 1304 "MPLSBackupPeerIpAddress" 5 1299 Enc.char_ip_ip6 Render.char_ip_ip6 0 0
    ∷ row 1305 "ServiceMultiplexingValueL2TPv3Peer" 5 1295 Enc.char_ip_ip6 Render.char_ip_ip6 0 0
    ∷ row 1306 "IEEE8021ahEncapsulation" 6 1295 Enc.nothing Render.aggregate 0 0
    ∷ row 1307 "ITCIEncapsulation" 1 1306 Enc.hexstr Render.hexstr 4 4
    ∷ row 1308 "BDAEncapsulation" 2 1306 Enc.hexstr Render.hexstr 6 6
    ∷ row 1309 "BTCIEncapsulation" 3 1306 Enc.hexstr Render.hexstr 2 2
    ∷ row 1310 "ITPIDEncapsulation" 4 1306 Enc.hexstr Render.hexstr 2 2
    ∷ row 1311 "IPCPEncapsulation" 5 1306 Enc.hexstr Render.hexstr 1 1
    ∷ row 1312 "IDEIEncapsulation" 6 1306 Enc.hexstr Render.hexstr 1 1
    ∷ row 1313 "IUCAEncapsulation" 7 1306 Enc.hexstr Render.hexstr 1 1
    ∷ row 1314 "ISIDEncapsulation" 8 1306 Enc.hexstr Render.hexstr 3 3
    ∷ row 1315 "BTPIDEncapsulation" 9 1306 Enc.hexstr Render.hexstr 2 2
    ∷ row 1316 "BPCPEncapsulation" 10 1306 Enc.hexstr Render.hexstr 1 1
    ∷ row 1317 "BDEIEncapsulation" 11 1306 Enc.hexstr Render.hexstr 1 1
    ∷ row 1318 "BVIDEncapsulation" 12 1306 Enc.hexstr Render.hexstr 2 2
    ∷ row 1319 "ServiceMultiplexingValueIEEE8021adSTPID" 8 1295 Enc.hexstr Render.hexstr 2 2
    ∷ row 1320 "eSAFEDHCPSnooping" 3 1293 Enc.hexstr Render.hexstr 0 0
    ∷ row 1321 "CMInterfaceMaskCMIMSubtype" 4 1293 Enc.hexstr Render.hexstr 0 0
    ∷ row 1322 "AttachmentGroupID" 5 1293 Enc.hexstr Render.hexstr 0 0
    ∷ row 1323 "SourceAttachmentIndividualID" 6 1293 Enc.hexstr Render.hexstr 0 0
    ∷ row 1324 "TargetAttachmentIndividualID" 7 1293 Enc.hexstr Render.hexstr 0 0
    ∷ row 1325 "IngressUserPriority" 8 1293 Enc.uchar Render.uchar 0 7
    ∷ row 1326 "UserPriorityRange" 9 1293 Enc.char_list Render.char_list 0 0
    ∷ row 1327 "L2VPNSADescriptorSubtype" 10 1293 Enc.hexstr Render.hexstr 14 14
    ∷ row 1328 "PseudowireType" 12 1293 Enc.uchar Render.uchar 4 5
    ∷ row 1329 "L2VPNMode" 13 1293 Enc.uchar Render.uchar 0 1
    ∷ row 1330 "TPIDTranslation" 14 1293 Enc.nothing Render.aggregate 0 0
    ∷ row 1331 "UpstreamTPIDTranslation" 1 1330 Enc.hexstr Render.hexstr 2 2
    ∷ row 1332 "DownstreamTPIDTranslation" 2 1330 Enc.hexstr Render.hexstr 2 2
    ∷ row 1333 "UpstreamSTPIDTranslation" 3 1330 Enc.hexstr Render.hexstr 2 2
    ∷ row 1334 "DownstreamSTPIDTranslation" 4 1330 Enc.hexstr Render.hexstr 2 2
    ∷ row 1335 "UpstreamBTPIDTranslation" 5 1330 Enc.hexstr Render.hexstr 2 2
    ∷ row 1336 "DownstreamBTPIDTranslation" 6 1330 Enc.hexstr Render.hexstr 2 2
    ∷ row 1337 "UpstreamITPIDTranslation" 7 1330 Enc.hexstr Render.hexstr 2 2
    ∷ row 1338 "DownstreamITPIDTranslation" 8 1330 Enc.hexstr Render.hexstr 2 2
    ∷ row 1339 "L2CPProcessing" 15 1293 Enc.nothing Render.aggregate 0 0
    ∷ row 1340 "L2CPTunnelMode" 1 1339 Enc.uchar Render.uchar 0 1
    ∷ row 1341 "L2CPDMACAddress" 2 1339 Enc.ether Render.ether 0 0
    ∷ row 1342 "L2CPOverwrotingDMACAddress" 3 1339 Enc.ether Render.ether 0 0
    ∷ row 1343 "DACDisableEnableConfiguration" 16 1293 Enc.uchar Render.uchar 0 1
    ∷ row 1344 "PseudowireClass" 18 1293 Enc.hexstr Render.hexstr 0 0
    ∷ row 1345 "ServiceDelimiter" 19 1293 Enc.nothing Render.aggregate 0 0
    ∷ row 1346 "CVIDDelimiter" 1 1345 Enc.hexstr Render.hexstr 2 2
    ∷ row 1347 "SVIDDelimiter" 2 1345 Enc.hexstr Render.hexstr 2 2
    ∷ row 1348 "ISIDDelimiter" 3 1345 Enc.hexstr Render.hexstr 3 3
    ∷ row 1349 "BVIDDelimiter" 4 1345 Enc.hexstr Render.hexstr 2 2
    ∷ row 1350 "VirtualSwitchInstanceEncoding" 20 1293 Enc.nothing Render.aggregate 0 0
    ∷ row 1351 "VPLSClass" 1 1350 Enc.hexstr Render.hexstr 0 0
    ∷ row 1352 "ETreeRole" 2 1350 Enc.uchar Render.uchar 0 1
    ∷ row 1353 "ETreeRootVID" 3 1350 Enc.hexstr Render.hexstr 2 2
    ∷ row 1354 "ETreeLeafVID" 4 1350 Enc.hexstr Render.hexstr 2 2
    ∷ row 1355 "BGPAttribute" 21 1293 Enc.nothing Render.aggregate 0 0
    ∷ row 1356 "BGPVPNID" 1 1355 Enc.uint Render.uint 0 0
    ∷ row 1357 "RouteDistinguisher" 2 1355 Enc.hexstr Render.hexstr 8 8
    ∷ row 1358 "RouteTargetImport" 3 1355 Enc.hexstr Render.hexstr 0 0
    ∷ row 1359 "RouteTargetExport" 4 1355 Enc.hexstr Render.hexstr 0 0
    ∷ row 1360 "CEIDVEID" 5 1355 Enc.ushort Render.ushort 0 0
    ∷ row 1361 "PseudowireSignaling" 23 1293 Enc.uchar Render.uchar 0 2
    ∷ row 1362 "SOAMSubtype" 24 1293 Enc.nothing Render.aggregate 0 0
    ∷ row 1363 "MEPConfiguration" 1 1362 Enc.nothing Render.aggregate 0 0
    ∷ row 1364 "MDLevel" 1 1363 Enc.uchar Render.uchar 0 7
    ∷ row 1365 "MDName" 2 1363 Enc.string Render.string 2 16
    ∷ row 1366 "MAName" 3 1363 Enc.string Render.string 2 28
    ∷ row 1367 "MEPID" 4 1363 Enc.ushort Render.ushort 1 8191
    ∷ row 1368 "RemoteMEPConfiguration" 2 1362 Enc.nothing Render.aggregate 0 0
    ∷ row 1369 "RemoteMDLevel" 1 1368 Enc.uchar Render.uchar 0 7
    ∷ row 1370 "RemoteMDName" 2 1368 Enc.string Render.string 2 16
    ∷ row 1371 "RemoteMAName" 3 1368 Enc.string Render.string 2 28
    ∷ row 1372 "RemoteMEPID" 4 1368 Enc.ushort Render.ushort 1 8191
    ∷ row 1373 "FaultManagementConfiguration" 3 1362 Enc.nothing Render.aggregate 0 0
    ∷ row 1374 "ContinuityCheckMessages" 1 1373 Enc.uchar Render.uchar 0 2
    ∷ row 1375 "LoopbackFunction" 2 1373 Enc.uchar Render.uchar 0 1
    ∷ row 1376 "LinktraceFunction" 3 1373 Enc.uchar Render.uchar 0 1
    ∷ row 1377 "PerformanceManagementConfiguration" 4 1362 Enc.nothing Render.aggregate 0 0
    ∷ row 1378 "FrameDelayMeasurement" 1 1377 Enc.nothing Render.aggregate 0 0
    ∷ row 1379 "FrameDelayMeasurementEnable" 1 1378 Enc.uchar Render.uchar 0 1
    ∷ row 1380 "FrameDelayMeasurementOneWayTwoWay" 2 1378 Enc.uchar Render.uchar 0 1
    ∷ row 1381 "FrameDelayMeasurementTransmissionPeriodicity" 3 1378 Enc.ushort Render.ushort 0 0
    ∷ row 1382 "FrameLossMeasurement" 2 1377 Enc.nothing Render.aggregate 0 0
    ∷ row 1383 "FrameLossMeasurementEnable" 1 1382 Enc.uchar Render.uchar 0 1
    ∷ row 1384 "FrameLossMeasurementTransmissionPeriodicity" 2 1382 Enc.uchar Render.uchar 0 0
    ∷ row 2060 "VPNSGAttribute" 22 1293 Enc.string Render.string 1 16
    ∷ row 2061 "L2VPNNetworkTimingProfileReference" 25 1293 Enc.ushort Render.ushort 0 65535
    ∷ row 1385 "L2VPNDSID" 26 1293 Enc.uint24 Render.uint24 1 1048575
    ∷ row 2062 "L2VPNMultipointForwardingMode" 27 1293 Enc.uchar Render.uchar 0 1
    ∷ row 1386 "VendorSpecificL2VPNSubtype" 43 1293 Enc.nothing Render.aggregate 0 0
    ∷ row 1387 "VendorIdentifier" 8 1386 Enc.hexstr Render.hexstr 3 3
    ∷ row 1388 "ExtendedCMTSMICConfiguration" 6 1288 Enc.nothing Render.aggregate 0 0
    ∷ row 1389 "ExtendedCMTSMICHMACDigestType" 1 1388 Enc.uchar Render.uchar 0 0
    ∷ row 1390 "ExtendedCMTSMICHMACBitmap" 2 1388 Enc.hexstr Render.hexstr 0 0
    ∷ row 1391 "ExtendedCMTSMICHMACDigest" 3 1388 Enc.hexstr Render.hexstr 0 0
    ∷ row 1392 "SAVAuthorizationEncoding" 7 1288 Enc.nothing Render.aggregate 0 0
    ∷ row 1393 "SAVGroupName" 1 1392 Enc.string Render.string 1 15
    ∷ row 1394 "SAVStaticPrefixRule" 2 1392 Enc.nothing Render.aggregate 0 0
    ∷ row 1395 "SAVStaticPrefixAddress" 1 1394 Enc.ip_ip6 Render.ip_ip6 0 0
    ∷ row 1396 "SAVStaticPrefixLength" 2 1394 Enc.uchar Render.uchar 0 0
    ∷ row 1397 "VendorIdentifier" 8 1288 Enc.hexstr Render.hexstr 3 3
    ∷ row 1398 "CMAttributeMasks" 9 1288 Enc.nothing Render.aggregate 0 0
    ∷ row 1399 "CMDownstreamRequiredAttributeMask" 1 1398 Enc.hexstr Render.hexstr 4 4
    ∷ row 1400 "CMDownstreamForbiddenAttributeMask" 2 1398 Enc.hexstr Render.hexstr 4 4
    ∷ row 1401 "CMUpstreamRequiredAttributeMask" 3 1398 Enc.hexstr Render.hexstr 4 4
    ∷ row 1402 "CMUpstreamForbiddenAttributeMask" 4 1398 Enc.hexstr Render.hexstr 4 4
    ∷ row 1403 "IPMulticastJoinAuthorization" 10 1288 Enc.nothing Render.aggregate 0 0
    ∷ row 1404 "IPMulticastProfileName" 1 1403 Enc.string Render.string 1 15
    ∷ row 1405 "IPMulticastJoinAuthStaticSessionRule" 2 1403 Enc.nothing Render.aggregate 0 0
    ∷ row 1406 "MulticastRulePriority" 1 1405 Enc.uchar Render.uchar 0 255
    ∷ row 1407 "AuthorizationAction" 2 1405 Enc.uchar Render.uchar 0 1
    ∷ row 1408 "SourcePrefixAddress" 3 1405 Enc.ip_ip6 Render.ip_ip6 0 0
    ∷ row 1409 "SourcePrefixLength" 4 1405 Enc.uchar Render.uchar 0 128
    ∷ row 1410 "GroupPrefixAddress" 5 1405 Enc.ip_ip6 Render.ip_ip6 0 0
    ∷ row 1411 "GroupPrefixLength" 6 1405 Enc.uchar Render.uchar 0 128
    ∷ row 1412 "MaximumMulticastSessions" 3 1403 Enc.ushort Render.ushort 0 0
    ∷ row 1413 "ServiceTypeIdentifier" 11 1288 Enc.string Render.string 1 16
    ∷ row 1414 "DEMARCAutoConfiguration" 12 1288 Enc.nothing Render.aggregate 0 0
    ∷ []
